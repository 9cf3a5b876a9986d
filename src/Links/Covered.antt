-- ===== src/Links/Covered.antt =====
-- The count of users against the links.
use retro_doc.Prelude.{
  ℕ, zero, suc, ◌+◌, ◌≤◌, ◌==◌, true, List, [], ◌∷◌, ◌++◌, ◌≡◌, ap, refl, length, Bool-cases,
  Option-cases, inl, inr, arith,
}
use retro_doc.Links.Model.{
  ℤ, pos, incremented, decremented, is_positive, Link, Store, find_link, has_link, has_id,
  without_link, Request, find_repo, claim_slot, insert_link, undo_slot, verify_link, delete_link,
  release_slot, advance, System, finds_link, Step, join, leave, go_on, crash, Steps, stop, more,
}

-- The slots that a request holds beside the links.
unfoldable pub slots : Request → ℕ
slots (insert_link u) = 1
slots (undo_slot u) = 1
slots (release_slot id) = 1
slots (find_repo u) = 0
slots (claim_slot u) = 0
slots (verify_link u) = 0
slots (delete_link id) = 0

unfoldable pub all_slots : List Request → ℕ
unfolding slots
all_slots [] = 0
all_slots (r ∷ rs) = slots r + all_slots rs

-- The count covers the links and the slots of the requests in flight.
pub record IsCovered (store : Store) (requests : List Request) : Type 0 where
  pub users : ℕ
  pub counted : store.user_count ≡ pos users
  pub enough : length store.links + all_slots requests ≤ users

all_slots-append : (xs ys : List Request) → all_slots (xs ++ ys) ≡ all_slots xs + all_slots ys
unfolding all_slots
all_slots-append [] ys = omega arith
all_slots-append (x ∷ xs) ys = omega (arith, all_slots-append xs ys)

length-without_link :
    (id : ℕ) (ls : List Link) → has_id id ls ≡ true → suc (length (without_link id ls)) ≡ length ls
unfolding has_id without_link
length-without_link id [] h = absurd (ground (arith, h))
length-without_link id (l ∷ ls) h =
    let r = length-without_link id ls in
    elim (Bool-cases (id == l.id)) [
      | inl e ↦ rw e refl
      | inr e ↦ rw e (omega (arith, r (ground (arith, h, e))))
    ]

-- A step of a request, with `others` for the slots of the other requests.
record Balance (a : Store) (held : ℕ) (b : Store) (kept : ℕ) : Type 0 where
  balanced :
      (n others : ℕ)
      → a.user_count ≡ pos n
      → length a.links + (held + others) ≤ n
      → (m : ℕ) × (b.user_count ≡ pos m) × (length b.links + (kept + others) ≤ m)

give_back : (c : ℤ) (n k : ℕ) → c ≡ pos n → suc k ≤ n → (m : ℕ) × (decremented c ≡ pos m) × (k ≤ m)
unfolding decremented
give_back c zero k e h = absurd (omega (arith, h))
give_back c (suc m) k e h = (m, ap decremented e, omega (arith, h))

advance-Balance :
    (r : Request) (s : Store)
    → finds_link r s ≡ true
    → Balance s (slots r) (advance r s).0 (all_slots (advance r s).1)
unfolding advance slots all_slots finds_link is_positive incremented decremented
advance-Balance (find_repo u) s f = record {
  balanced = λ n others e h. elim (Bool-cases (is_positive s.user_count)) [
    | inl k ↦ rw k (n, e, h)
    | inr k ↦ rw k (n, e, h)
  ];
}
advance-Balance (claim_slot u) s f = record {
  balanced = λ n others e h. elim (Bool-cases (is_positive s.user_count)) [
    | inl k ↦ rw k (suc n, ap incremented e, omega (arith, h))
    | inr k ↦ rw k (n, e, h)
  ];
}
advance-Balance (insert_link u) s f = record {
  balanced = λ n others e h. elim (Bool-cases (has_link u s.links)) [
    | inl k ↦ rw k (n, e, h)
    | inr k ↦ rw k (n, e, omega (arith, h))
  ];
}
advance-Balance (undo_slot u) s f = record {
  balanced =
      λ n others e h. give_back s.user_count n (length s.links + (0 + others)) e (omega (arith, h));
}
advance-Balance (verify_link u) s f = record {
  balanced = λ n others e h. elim (Option-cases (find_link u s.links)) [
    | inl k ↦ rw (k, advance) (n, e, h)
    | inr (id, k) ↦ rw (k, advance) (n, e, h)
  ];
}
advance-Balance (delete_link id) s f = record {
  balanced = λ n others e h. (n, e, omega (arith, h, length-without_link id s.links f));
}
advance-Balance (release_slot id) s f = record {
  balanced =
      λ n others e h. give_back s.user_count n (length s.links + (0 + others)) e (omega (arith, h));
}

Step-IsCovered :
    {a b : System} → Step a b → IsCovered a.store a.requests → IsCovered b.store b.requests
unfolding all_slots
Step-IsCovered (join u s rs) w = record {
  users = w.users;
  counted = w.counted;
  enough = omega (arith, w.enough);
}
Step-IsCovered (leave u s rs) w = record {
  users = w.users;
  counted = w.counted;
  enough = omega (arith, w.enough);
}
Step-IsCovered (go_on before r after s f) w =
    let (m, e, h) =
      (advance-Balance r s f).balanced w.users (all_slots before + all_slots after) w.counted
        (omega (arith, w.enough, all_slots-append before (r ∷ after))) in
    record {
      users = m;
      counted = e;
      enough = omega (
        arith,
        h,
        all_slots-append (before ++ (advance r s).1) after,
        all_slots-append before (advance r s).1,
      );
    }
Step-IsCovered (crash before r after s) w = record {
  users = w.users;
  counted = w.counted;
  enough =
      omega (arith, w.enough, all_slots-append before (r ∷ after), all_slots-append before after);
}

Steps-IsCovered :
    {a b : System} → Steps a b → IsCovered a.store a.requests → IsCovered b.store b.requests
Steps-IsCovered (stop a) w = w
Steps-IsCovered (more s ss) w = Steps-IsCovered ss (Step-IsCovered s w)

-- Joins and deletions of one repository, their steps interleaved in any way and lost in crashes: as
-- long as the very link that a deletion has read is still there whenever it deletes it, if no request
-- is in flight at first and the count is at least the number of links, it is so ever after.
pub Steps-covers_links :
    (users next : ℕ) (links : List Link) (b : System)
    → Steps
        (record {
          store = record { user_count = pos users; links = links; next_id = next };
          requests = [];
        })
        b
    → length links ≤ users
    → (n : ℕ) × (b.store.user_count ≡ pos n) × (length b.store.links ≤ n)
unfolding all_slots
Steps-covers_links users next links b ss h =
    let w =
      Steps-IsCovered ss (record { users = users; counted = refl; enough = omega (arith, h) }) in
    (w.users, w.counted, omega (arith, w.enough))
