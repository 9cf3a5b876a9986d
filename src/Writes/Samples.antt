-- ===== src/Writes/Samples.antt =====
-- The theorems on the insertion at a collection that throttles, and runs of the definitions. Two
-- batches are throttled at their first document.
use retro_doc.Prelude.{ℕ, none, some, List, [], ◌∷◌, ◌≡◌, ◌+◌, ◌⊎◌, refl, inl, inr, arith}
use retro_doc.Writes.Insert.{mongodb_retry_insert_many}
use retro_doc.Writes.Errors.{IsIn}
use retro_doc.Writes.Throttled.{throttling, insert_throttled}
use retro_doc.Writes.Counts.{insert_many-counts}
use retro_doc.Writes.Stored.{insert_many-stored}

abbrev docs : List ℕ
docs = 10 ∷ 11 ∷ 12 ∷ 13 ∷ 14 ∷ []

abbrev codes : List ℕ
codes = 16500 ∷ []

-- Three attempts are enough.
run_three :
    mongodb_retry_insert_many throttling codes 3 2 docs (2, [])
    ≡ (some (5, 0, []), (0, 10 ∷ 12 ∷ 14 ∷ 13 ∷ 11 ∷ []))
unfolding mongodb_retry_insert_many insert_throttled
run_three = refl

-- Without a chunk size the insertion raises an exception.
run_no_size : (mongodb_retry_insert_many throttling codes 3 0 docs (2, [])).0 ≡ none
unfolding mongodb_retry_insert_many
run_no_size = refl

-- One attempt is not.
run_one : (mongodb_retry_insert_many throttling codes 1 2 docs (2, [])).0 ≡ some (3, 2, 16500 ∷ [])
unfolding mongodb_retry_insert_many insert_throttled
run_one = refl

insert_many-counts_example : 5 + 0 ≡ 5
insert_many-counts_example =
    insert_many-counts throttling codes 3 2 docs (2, []) _ 5 0 [] (omega arith) run_three

insert_many-stored_example :
    IsIn {D = ℕ} 12 (10 ∷ 12 ∷ 14 ∷ 13 ∷ 11 ∷ [])
    ⊎ ((d : ℕ) × (12 ≡ d) × IsIn d (10 ∷ 12 ∷ 14 ∷ 13 ∷ 11 ∷ []))
insert_many-stored_example =
    insert_many-stored throttling codes 3 2 docs (2, []) (0, 10 ∷ 12 ∷ 14 ∷ 13 ∷ 11 ∷ []) 5 [] 12
      (omega arith) run_three (inr (inr (inl refl)))
