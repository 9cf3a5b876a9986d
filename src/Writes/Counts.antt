-- ===== src/Writes/Counts.antt =====
-- What the counts of `mongodb_retry_insert_many` add up to.
use retro_doc.Prelude.{
  ℕ, zero, suc, ◌+◌, ◌≤◌, ◌<◌, ◌==◌, true, some, List, [], ◌∷◌, ◌≡◌, ◌∙◌, sym, ap, refl, All,
  length, length-append, length-take-drop, is_empty, drop, Bool-cases, inl, inr, arith,
}
use mathlib.Core.Option.{some-injective}
use retro_doc.Writes.Bulk.{
  Bulk, Answer, written, bulk_write_error, raised, WriteError, IsReport, get_elem?, is_in,
}
use retro_doc.Writes.Steps.{insert_chunks-cons, attempt-suc, insert_many-attempt, no_tally}
use retro_doc.Writes.Insert.{
  sliced, Tally, collect, count_error, count_errors, count_chunk, insert_chunks, attempt, close,
  mongodb_retry_insert_many,
}

get_elem?-in_range :
    {A : Type 0} (xs : List A) (i : ℕ) → i < length xs → (x : A) × (get_elem? xs i ≡ some x)
unfolding get_elem?
get_elem?-in_range [] i h = absurd (ground (arith, h))
get_elem?-in_range (x ∷ xs) zero h = (x, refl)
get_elem?-in_range (x ∷ xs) (suc i) h = get_elem?-in_range xs i (omega (arith, h))

length-empty : {A : Type 0} (xs : List A) → is_empty xs ≡ true → length xs ≡ 0
length-empty [] h = refl
length-empty (x ∷ xs) h = absurd (ground (arith, h))

module _ {A : Type 0} where
  -- The number of documents in the chunks.
  unfoldable pub total_length : List (List A) → ℕ
  total_length [] = 0
  total_length (c ∷ cs) = length c + total_length cs

  -- The chunks of a positive size have all the documents.
  pub total_length-sliced :
      (size fuel : ℕ) (xs : List A)
      → 0 < size
      → length xs ≤ fuel
      → total_length (sliced size fuel xs) ≡ length xs
  unfolding total_length sliced
  total_length-sliced size zero [] p h = refl
  total_length-sliced size zero (x ∷ xs) p h = absurd (ground (arith, h))
  total_length-sliced size (suc fuel) [] p h = refl
  total_length-sliced (suc size) (suc fuel) (x ∷ xs) p h =
      let l = length-take-drop size xs in
      let r = total_length-sliced (suc size) fuel (drop size xs) p (omega (arith, h, l)) in
      omega (arith, r, l)
  total_length-sliced zero (suc fuel) (x ∷ xs) p h = absurd (ground (arith, p))

module _ {D : Type 0} (bulk : Bulk D) (throttle_codes : List ℕ) where
  abbrev Counts : Type 0
  Counts = Tally bulk throttle_codes

  unfoldable pub total : Counts → ℕ
  total t = t.succeeded + t.failed + length t.throttled

  total-count_error :
      (chunk : List D) (e : WriteError) (t : Counts)
      → e.index < length chunk
      → total (count_error bulk throttle_codes chunk e t) ≡ suc (total t)
  unfolding total count_error collect
  total-count_error chunk e t h =
      let (d, g) = get_elem?-in_range chunk e.index h in
      elim (Bool-cases (e.code == 11000)) [
        | inl c ↦ rw c (omega arith)
        | inr c ↦ rw c (elim (Bool-cases (is_in e.code throttle_codes)) [
          | inl k ↦ rw k (rw g (omega (arith, length-append t.throttled (d ∷ []))))
          | inr k ↦ rw k (omega arith)
        ])
      ]

  total-count_errors :
      (chunk : List D) (es : List WriteError) (t : Counts)
      → All (λ e. e.index < length chunk) es
      → total (count_errors bulk throttle_codes chunk es t) ≡ total t + length es
  unfolding count_errors
  total-count_errors chunk [] t h = omega arith
  total-count_errors chunk (e ∷ es) t h = omega (
    arith,
    total-count_errors chunk es (count_error bulk throttle_codes chunk e t) h.1,
    total-count_error chunk e t h.0,
  )

  total-count_chunk :
      (chunk : List D) (a : Answer) (t t' : Counts)
      → ((errs : List WriteError) → a ≡ bulk_write_error errs → IsReport (length chunk) errs)
      → count_chunk bulk throttle_codes chunk a t ≡ some t'
      → total t' ≡ total t + length chunk
  unfolding count_chunk total
  total-count_chunk chunk written t t' w h = sym (ap total (some-injective _ _ h)) ∙ omega arith
  total-count_chunk chunk (bulk_write_error errs) t t' w h =
      let r = w errs refl in
      let s = total-count_errors chunk errs t r.in_range in
      sym (ap total (some-injective _ _ h)) ∙ omega (arith, s, r.once, r.at_most)
  total-count_chunk chunk raised t t' w h = absurd (ground (arith, h))

  total-insert_chunks :
      (cs : List (List D)) (t t' : Counts) (db db' : bulk.Db)
      → insert_chunks bulk throttle_codes cs t db ≡ (some t', db')
      → total t' ≡ total t + total_length cs
  unfolding insert_chunks total_length
  total-insert_chunks [] t t' db db' h =
      sym (ap total (some-injective _ _ (ap (λ r. r.0) h))) ∙ omega arith
  total-insert_chunks (c ∷ cs) t t' db db' h =
      let (t1, e, h') = insert_chunks-cons bulk throttle_codes c cs t t' db db' h in
      let q = total-count_chunk c (bulk.insert_many db c).0 t t1 (bulk.insert_many-report db c) e in
      let r = total-insert_chunks cs t1 t' (bulk.insert_many db c).1 db' h' in omega (arith, q, r)

  total-attempt :
      (chunk_size n : ℕ) (t t' : Counts) (db db' : bulk.Db)
      → 0 < chunk_size
      → attempt bulk throttle_codes chunk_size n t db ≡ (some t', db')
      → total t' ≡ total t
  unfolding attempt total
  total-attempt chunk_size zero t t' db db' p h =
      sym (ap total (some-injective _ _ (ap (λ r. r.0) h)))
  total-attempt chunk_size (suc n) t t' db db' p h =
      elim (attempt-suc bulk throttle_codes chunk_size n t t' db db' h) [
        | inl (e, _) ↦ sym (ap total e)
        | inr (t1, db1, c, h') ↦
            let r = total-attempt chunk_size n t1 t' db1 db' p h' in
            let q = total-insert_chunks _ (record t { throttled = [] }) t1 db db1 c in
            let l =
              total_length-sliced chunk_size (length t.throttled) t.throttled p (omega arith) in
            omega (arith, r, q, l)
      ]

  close-total :
      (t : Counts) → (close bulk throttle_codes t).0 + (close bulk throttle_codes t).1 ≡ total t
  unfolding close total
  close-total t = elim (Bool-cases (is_empty t.throttled)) [
    | inl e ↦ rw (e, close) (omega (arith, length-empty t.throttled e))
    | inr e ↦ rw (e, close) (omega arith)
  ]

  -- With a positive chunk size, whatever the number of attempts and whatever was throttled, if no
  -- exception is raised then the documents reported as succeeded and as failed are as many as were
  -- given.
  pub insert_many-counts :
      (max_attempts chunk_size : ℕ) (docs : List D) (db db' : bulk.Db) (succeeded failed : ℕ)
      (codes : List ℕ)
      → 0 < chunk_size
      → mongodb_retry_insert_many bulk throttle_codes max_attempts chunk_size docs db
        ≡ (some (succeeded, failed, codes), db')
      → succeeded + failed ≡ length docs
  unfolding total
  insert_many-counts max_attempts chunk_size docs db db' succeeded failed codes p h =
      let (t, a, c) =
        insert_many-attempt bulk throttle_codes max_attempts chunk_size docs db db' _ h in
      omega (
        arith,
        close-total t,
        ap (λ r. r.0) c,
        ap (λ r. r.1) c,
        total-attempt chunk_size max_attempts (no_tally bulk throttle_codes docs) t db db' p a,
      )
