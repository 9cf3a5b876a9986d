-- ===== src/Links/Samples.antt =====
-- The theorem on the links at an interleaving, and runs of the definitions that it does not cover.
use retro_doc.Prelude.{ℕ, List, [], ◌∷◌, ◌≡◌, ◌≤◌, refl, arith}
use retro_doc.Links.Model.{
  pos, Link, Store, Request, find_repo, claim_slot, insert_link, verify_link, delete_link,
  release_slot, advance, System, finds_link, join, leave, go_on, Steps, stop, more,
}
use retro_doc.Links.Covered.{Steps-covers_links}

-- The link of user `u` has the identity `u`, unless a run inserts it.
abbrev link : ℕ → Link
link u = record { id = u; user = u }

abbrev store : ℕ → List Link → Store
store n links = record { user_count = pos n; links = links; next_id = 7 }

abbrev both : List Link
both = link 1 ∷ link 2 ∷ []

abbrev one : List Link
one = link 2 ∷ []

abbrev final : System
final = record { store = store 2 one; requests = insert_link 3 ∷ [] }

-- User 1 leaves while user 3 joins; user 3's slot is claimed before user 1's is given back.
interleaved : Steps (record { store = store 2 both; requests = [] }) final
unfolding advance finds_link
interleaved = more (leave 1 (store 2 both) []) (
    more (go_on [] (verify_link 1) [] (store 2 both) refl) (
      more (join 3 (store 2 both) (delete_link 1 ∷ [])) (
        more (go_on [] (find_repo 3) (delete_link 1 ∷ []) (store 2 both) refl) (
          more (go_on (claim_slot 3 ∷ []) (delete_link 1) [] (store 2 both) refl) (
            more (go_on [] (claim_slot 3) (release_slot 1 ∷ []) (store 2 one) refl) (
              more (go_on (insert_link 3 ∷ []) (release_slot 1) [] (store 3 one) refl)
                (stop final)))))))

Steps-covers_links_example : (n : ℕ) × (pos 2 ≡ pos n) × (1 ≤ n)
Steps-covers_links_example = Steps-covers_links 2 7 both final interleaved (omega arith)

-- The steps of the requests, each in its turn.
run : List Request → Store → Store
run [] s = s
run (r ∷ rs) s = run rs (advance r s).0

-- Two deletions of user 1's link, both past the ownership check, leave no user counted though user 2
-- has a link, and the next `join_repo` does not find the repository.
delete_twice :
    run
      (verify_link 1
        ∷ verify_link 1
        ∷ delete_link 1
        ∷ delete_link 1
        ∷ release_slot 1
        ∷ release_slot 1
        ∷ [])
      (store 2 both)
    ≡ store 0 one
unfolding run advance
delete_twice = refl

not_found : (advance (find_repo 3) (store 0 one)).1 ≡ []
unfolding advance
not_found = refl

-- If user 1 joins again between two such deletions, the new link stays and is not counted.
rejoined :
    run
      (verify_link 1
        ∷ verify_link 1
        ∷ delete_link 1
        ∷ release_slot 1
        ∷ find_repo 1
        ∷ claim_slot 1
        ∷ insert_link 1
        ∷ delete_link 1
        ∷ release_slot 1
        ∷ [])
      (store 2 both)
    ≡ record { user_count = pos 1; links = record { id = 7; user = 1 } ∷ one; next_id = 8 }
unfolding run advance
rejoined = refl
