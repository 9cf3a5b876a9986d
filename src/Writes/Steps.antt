-- ===== src/Writes/Steps.antt =====
-- How a run of the loops of `mongodb_retry_insert_many` that returns splits into its steps.
use retro_doc.Prelude.{
  ℕ, zero, suc, Option, none, some, List, [], ◌∷◌, ◌≡◌, ◌∙◌, ap, refl, length, is_empty, Bool-cases,
  Option-cases, ◌⊎◌, inl, inr, arith,
}
use mathlib.Core.Option.{some-injective}
use retro_doc.Writes.Bulk.{Bulk}
use retro_doc.Writes.Insert.{
  sliced, chunks, Tally, count_chunk, insert_chunks, attempt, close, insert_many_result,
  mongodb_retry_insert_many,
}

module _ {D : Type 0} (bulk : Bulk D) (throttle_codes : List ℕ) where
  abbrev Counts : Type 0
  Counts = Tally bulk throttle_codes

  pub insert_chunks-cons :
      (c : List D) (cs : List (List D)) (t t' : Counts) (db db' : bulk.Db)
      → insert_chunks bulk throttle_codes (c ∷ cs) t db ≡ (some t', db')
      → (t1 : Counts) × (count_chunk bulk throttle_codes c (bulk.insert_many db c).0 t ≡ some t1)
        × (insert_chunks bulk throttle_codes cs t1 (bulk.insert_many db c).1 ≡ (some t', db'))
  unfolding insert_chunks
  insert_chunks-cons c cs t t' db db' h =
      elim (Option-cases (count_chunk bulk throttle_codes c (bulk.insert_many db c).0 t)) [
        | inl e ↦ absurd (ground (arith, ap (λ r. r.0) (rw (e, insert_chunks) at h)))
        | inr (t1, e) ↦ (t1, e, rw (e, insert_chunks) at h)
      ]

  -- An attempt finds nothing to do, or inserts the chunks and goes on.
  pub attempt-suc :
      (chunk_size n : ℕ) (t t' : Counts) (db db' : bulk.Db)
      → attempt bulk throttle_codes chunk_size (suc n) t db ≡ (some t', db')
      → ((t ≡ t') × (db ≡ db'))
        ⊎ ((t1 : Counts) × (db1 : bulk.Db) × (insert_chunks bulk throttle_codes
                (sliced chunk_size (length t.throttled) t.throttled)
                (record t { throttled = [] })
                db
              ≡ (some t1, db1))
            × (attempt bulk throttle_codes chunk_size n t1 db1 ≡ (some t', db')))
  unfolding attempt chunks
  attempt-suc zero n t t' db db' h = elim (Bool-cases (is_empty t.throttled)) [
    | inl e ↦
        let h' : (some t, db) ≡ (some t', db') = rw (e, attempt) at h in
        inl (some-injective _ _ (ap (λ x. x.0) h'), ap (λ x. x.1) h')
    | inr e ↦ absurd (ground (arith, ap (λ x. x.0) (rw (e, attempt) at h)))
  ]
  attempt-suc (suc size) n t t' db db' h =
      let r =
        insert_chunks bulk throttle_codes (sliced (suc size) (length t.throttled) t.throttled)
          (record t { throttled = [] }) db in
      elim (Bool-cases (is_empty t.throttled)) [
        | inl e ↦
            let h' : (some t, db) ≡ (some t', db') = rw (e, attempt) at h in
            inl (some-injective _ _ (ap (λ x. x.0) h'), ap (λ x. x.1) h')
        | inr e ↦ elim (Option-cases r.0) [
          | inl k ↦
              absurd (ground (arith, ap (λ x. x.0) (rw (k, attempt) at (rw (e, attempt) at h))))
          | inr (t1, k) ↦
              inr (t1, r.1, (λ i. (k i, r.1)), rw (k, attempt) at (rw (e, attempt) at h))
        ]
      ]

  -- What the tally is before the first attempt.
  abbrev pub no_tally : List D → Counts
  no_tally docs = record { succeeded = 0; failed = 0; codes = []; throttled = docs }

  pub insert_many-attempt :
      (max_attempts chunk_size : ℕ) (docs : List D) (db db' : bulk.Db) (r : ℕ × ℕ × List ℕ)
      → mongodb_retry_insert_many bulk throttle_codes max_attempts chunk_size docs db
        ≡ (some r, db')
      → (t : Counts) × (attempt bulk throttle_codes chunk_size max_attempts (no_tally docs) db
          ≡ (some t, db'))
        × (close bulk throttle_codes t ≡ r)
  unfolding mongodb_retry_insert_many insert_many_result
  insert_many-attempt max_attempts chunk_size docs db db' r h =
      split (attempt bulk throttle_codes chunk_size max_attempts (no_tally docs) db) refl h
    where
      split :
          (o : Option Counts × bulk.Db)
          → attempt bulk throttle_codes chunk_size max_attempts (no_tally docs) db ≡ o
          → insert_many_result bulk throttle_codes o ≡ (some r, db')
          → (t : Counts) × (attempt bulk throttle_codes chunk_size max_attempts (no_tally docs) db
              ≡ (some t, db'))
            × (close bulk throttle_codes t ≡ r)
      split (none, db1) e k = absurd (ground (arith, ap (λ x. x.0) k))
      split (some t, db1) e k =
          (t, e ∙ ap (λ d. (some t, d)) (ap (λ x. x.1) k), some-injective _ _ (ap (λ x. x.0) k))
