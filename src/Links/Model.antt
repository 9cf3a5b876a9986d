-- ===== src/Links/Model.antt =====
-- `join_repo` with `_acquire_repo_link`, and `delete_repo` behind `get_verified_user_repo`, for one
-- repository, as requests that take one step on the database at a time. The threads and analyses that
-- `delete_repo` removes first are in other collections and left out.
use retro_doc.Prelude.{
  ℕ, zero, suc, ◌==◌, Bool, true, false, ◌||◌, Option, none, some, is_some, List, [], ◌∷◌, ◌++◌,
  ◌≡◌, if◌then◌else◌,
}

pub data ℤ : Type 0 where
  pos negsuc : ℕ → ℤ

-- `Inc(1)` and `Inc(-1)`
unfoldable pub incremented : ℤ → ℤ
incremented (pos n) = pos (suc n)
incremented (negsuc zero) = pos 0
incremented (negsuc (suc n)) = negsuc n

unfoldable pub decremented : ℤ → ℤ
decremented (pos zero) = negsuc 0
decremented (pos (suc n)) = pos n
decremented (negsuc n) = negsuc (suc n)

-- `GT(RepoDocument.user_count, 0)`
unfoldable pub is_positive : ℤ → Bool
is_positive (pos zero) = false
is_positive (pos (suc n)) = true
is_positive (negsuc n) = false

-- A link document; `id` is its `_id`.
pub record Link : Type 0 where
  pub id : ℕ
  pub user : ℕ

-- `user_count` and the links that are stored; the index admits one link for a user. `next_id` is the
-- `_id` of the next link that is inserted: no two are the same.
pub record Store : Type 0 where
  pub user_count : ℤ
  pub links : List Link
  pub next_id : ℕ

-- The `_id` of the link of a user.
unfoldable pub find_link : ℕ → List Link → Option ℕ
find_link u [] = none
find_link u (l ∷ ls) = if u == l.user then some l.id else find_link u ls

unfoldable pub has_link : ℕ → List Link → Bool
unfolding find_link
has_link u ls = is_some (find_link u ls)

unfoldable pub has_id : ℕ → List Link → Bool
has_id id [] = false
has_id id (l ∷ ls) = id == l.id || has_id id ls

-- `user_repo.delete()`: by `_id`.
unfoldable pub without_link : ℕ → List Link → List Link
without_link id [] = []
without_link id (l ∷ ls) = let rest = without_link id ls in if id == l.id then ls else l ∷ rest

-- What a request does next: `join_repo` finds the repository, claims a slot, inserts the link, and
-- gives the slot back if there was one; `delete_repo` comes after the ownership check, which reads the
-- user's link, deletes the link that was read, by its `_id`, and gives a slot back whether or not it
-- was still there.
pub data Request : Type 0 where
  find_repo claim_slot insert_link undo_slot : ℕ → Request
  verify_link : ℕ → Request
  delete_link release_slot : (id : ℕ) → Request

-- One step of a request: the store after it, and what remains of the request.
unfoldable pub advance : Request → Store → Store × List Request
unfolding incremented decremented is_positive find_link has_link without_link
advance (find_repo u) s = (s, if is_positive s.user_count then claim_slot u ∷ [] else [])
advance (claim_slot u) s =
    if is_positive s.user_count
    then (record s { user_count = incremented s.user_count }, insert_link u ∷ [])
    else (s, [])
advance (insert_link u) s = if has_link u s.links then (s, undo_slot u ∷ []) else (
  record s { links = record { id = s.next_id; user = u } ∷ s.links; next_id = suc s.next_id },
  [],
)
advance (undo_slot u) s = (record s { user_count = decremented s.user_count }, [])
advance (verify_link u) s =
    (s, elim (find_link u s.links) [ some id ↦ delete_link id ∷ [] | none ↦ [] ])
advance (delete_link id) s = (record s { links = without_link id s.links }, release_slot id ∷ [])
advance (release_slot id) s = (record s { user_count = decremented s.user_count }, [])

-- The store, and the requests in flight.
pub record System : Type 0 where
  pub store : Store
  pub requests : List Request

-- Whether the link that a deletion is about to delete is still there; true of every other step.
unfoldable pub finds_link : Request → Store → Bool
unfolding has_id
finds_link (delete_link id) s = has_id id s.links
finds_link (find_repo u) s = true
finds_link (claim_slot u) s = true
finds_link (insert_link u) s = true
finds_link (undo_slot u) s = true
finds_link (verify_link u) s = true
finds_link (release_slot id) s = true

-- A request arrives, takes a step, or is lost in a crash.
pub data Step : System → System → Type 0 where
  join :
      (u : ℕ) (s : Store) (rs : List Request)
      → Step
          (record { store = s; requests = rs })
          (record { store = s; requests = find_repo u ∷ rs })
  leave :
      (u : ℕ) (s : Store) (rs : List Request)
      → Step
          (record { store = s; requests = rs })
          (record { store = s; requests = verify_link u ∷ rs })
  go_on :
      (before : List Request) (r : Request) (after : List Request) (s : Store)
      → finds_link r s ≡ true
      → Step
          (record { store = s; requests = before ++ r ∷ after })
          (record { store = (advance r s).0; requests = before ++ (advance r s).1 ++ after })
  crash :
      (before : List Request) (r : Request) (after : List Request) (s : Store)
      → Step
          (record { store = s; requests = before ++ r ∷ after })
          (record { store = s; requests = before ++ after })

pub data Steps : System → System → Type 0 where
  stop : (a : System) → Steps a a
  more : {a b c : System} → Step a b → Steps b c → Steps a c
