-- ===== src/Writes/Insert.antt =====
-- `mongodb_retry_insert_many` of worker/app/core/database.py. The waits between the attempts, the
-- semaphore and the log are left out.
use retro_doc.Prelude.{
  ℕ, zero, suc, ◌+◌, ◌-◌, ltb, ◌==◌, Option, none, some, List, [], ◌∷◌, ◌++◌, length, is_empty,
  take, drop, if◌then◌else◌,
}
use retro_doc.Writes.Bulk.{
  Bulk, Answer, written, bulk_write_error, raised, WriteError, get_elem?, is_in, distinct_count,
  indices,
}

-- `sorted(codes | {code})`
unfoldable pub add_code : ℕ → List ℕ → List ℕ
add_code c [] = c ∷ []
add_code c (d ∷ ds) =
    let rest = add_code c ds in if c == d then d ∷ ds else if ltb c d then c ∷ d ∷ ds else d ∷ rest

unfoldable pub add_codes : List ℕ → List ℕ → List ℕ
unfolding add_code
add_codes [] codes = codes
add_codes (c ∷ cs) codes = add_codes cs (add_code c codes)

-- The slices of a positive size; as many steps as there are documents are enough.
unfoldable pub sliced {ℓ} : {A : Type ℓ} → ℕ → ℕ → List A → List (List A)
sliced size zero xs = []
sliced size (suc fuel) xs =
    let rest = sliced size fuel (drop size xs) in if is_empty xs then [] else take size xs ∷ rest

-- `[pending[i : i + chunk_size] for i in range(0, len(pending), chunk_size)]`; `none` is the
-- `ValueError` of a `range` whose step is 0.
unfoldable pub chunks {ℓ} : {A : Type ℓ} → ℕ → List A → Option (List (List A))
unfolding sliced
chunks zero pending = none
chunks (suc n) pending = some (sliced (suc n) (length pending) pending)

module _ {D : Type 0} (bulk : Bulk D) (throttle_codes : List ℕ) where
  -- The variables of the loops.
  pub record Tally : Type 0 where
    pub succeeded : ℕ
    pub failed : ℕ
    pub codes : List ℕ
    pub throttled : List D

  unfoldable pub collect : Option D → List D → List D
  collect none ds = ds
  collect (some d) ds = ds ++ d ∷ []

  -- One entry of `writeErrors`.
  unfoldable pub count_error : List D → WriteError → Tally → Tally
  unfolding get_elem? collect is_in add_code
  count_error chunk e t =
      if e.code == 11000
      then record t { succeeded = suc t.succeeded }
      else if is_in e.code throttle_codes
      then record t { throttled = collect (get_elem? chunk e.index) t.throttled }
      else record t { failed = suc t.failed; codes = add_code e.code t.codes }

  unfoldable pub count_errors : List D → List WriteError → Tally → Tally
  unfolding count_error
  count_errors chunk [] t = t
  count_errors chunk (e ∷ es) t = count_errors chunk es (count_error chunk e t)

  -- What is counted for a chunk; `none` is an exception that is not caught.
  unfoldable pub count_chunk : List D → Answer → Tally → Option Tally
  unfolding count_errors distinct_count
  count_chunk chunk written t = some (record t { succeeded = t.succeeded + length chunk })
  count_chunk chunk (bulk_write_error errs) t =
      let t' = count_errors chunk errs t in
      some (record t' { succeeded = t'.succeeded + (length chunk - distinct_count (indices errs)) })
  count_chunk chunk raised t = none

  unfoldable pub insert_chunks : List (List D) → Tally → bulk.Db → Option Tally × bulk.Db
  unfolding count_chunk
  insert_chunks [] t db = (some t, db)
  insert_chunks (c ∷ cs) t db =
      let (answer, db') = bulk.insert_many db c in
      elim (count_chunk c answer t) [ some t' ↦ insert_chunks cs t' db' | none ↦ (none, db') ]

  -- The attempts. The documents of `throttled` are those of the attempt before.
  unfoldable pub attempt : ℕ → ℕ → Tally → bulk.Db → Option Tally × bulk.Db
  unfolding insert_chunks chunks
  attempt chunk_size zero t db = (some t, db)
  attempt chunk_size (suc n) t db =
      if is_empty t.throttled then (some t, db) else elim (chunks chunk_size t.throttled) [
        | none ↦ (none, db)
        | some cs ↦
            let (r, db') = insert_chunks cs (record t { throttled = [] }) db in
            elim r [ some t' ↦ attempt chunk_size n t' db' | none ↦ (none, db') ]
      ]

  -- What is still throttled has failed.
  unfoldable pub close : Tally → ℕ × ℕ × List ℕ
  unfolding add_codes
  close t =
      if is_empty t.throttled
      then (t.succeeded, t.failed, t.codes)
      else (t.succeeded, t.failed + length t.throttled, add_codes throttle_codes t.codes)

  unfoldable pub insert_many_result : Option Tally × bulk.Db → Option (ℕ × ℕ × List ℕ) × bulk.Db
  unfolding close
  insert_many_result (some t, db) = (some (close t), db)
  insert_many_result (none, db) = (none, db)

  unfoldable pub mongodb_retry_insert_many :
      ℕ → ℕ → List D → bulk.Db → Option (ℕ × ℕ × List ℕ) × bulk.Db
  unfolding insert_many_result attempt
  mongodb_retry_insert_many max_attempts chunk_size docs db = insert_many_result (
      attempt chunk_size max_attempts
        (record { succeeded = 0; failed = 0; codes = []; throttled = docs }) db)
