-- ===== src/Writes/Stored.antt =====
-- Which documents `mongodb_retry_insert_many` leaves in the collection.
use retro_doc.Prelude.{
  ℕ, zero, suc, ◌<◌, true, false, some, List, [], ◌∷◌, ◌≡◌, sym, subst, ap, refl, All, length,
  is_empty, Bool-cases, ◌⊎◌, inl, inr, arith,
}
use mathlib.Core.Option.{some-injective}
use retro_doc.Writes.Bulk.{Bulk, Answer, written, bulk_write_error, raised, is_in, indices}
use retro_doc.Writes.Steps.{insert_chunks-cons, attempt-suc, insert_many-attempt, no_tally}
use retro_doc.Writes.Insert.{
  sliced, Tally, count_chunk, insert_chunks, attempt, close, mongodb_retry_insert_many,
}
use retro_doc.Writes.Errors.{
  IsIn, IsInChunk, IsIn-get_elem?, sliced-IsInChunk, Keeps, Named, count_errors-Keeps,
  count_errors-Named,
}

module _ {D : Type 0} (bulk : Bulk D) (throttle_codes : List ℕ) where
  abbrev Counts : Type 0
  Counts = Tally bulk throttle_codes

  -- The document is in the collection, or one with the same value of a unique key.
  abbrev pub HasKey : D → bulk.Db → Type 0
  HasKey d db = bulk.IsStored db d ⊎ ((d' : D) × bulk.SameKey d d' × bulk.IsStored db d')

  -- The document or its key is in the collection, or the document will be tried again, or some failure is counted.
  Settled : D → Counts → bulk.Db → Type 0
  Settled d t db = HasKey d db ⊎ (IsIn d t.throttled ⊎ (0 < t.failed))

  Settled-Keeps :
      (d : D) (t t' : Counts) (db : bulk.Db) (ds : List D)
      → Keeps bulk throttle_codes t t'
      → Settled d t db
      → Settled d t' (bulk.insert_many db ds).1
  unfolding Settled
  Settled-Keeps d t t' db ds w (inl (inl h)) = inl (inl (bulk.insert_many-kept db ds d h))
  Settled-Keeps d t t' db ds w (inl (inr (d', k, h))) =
      inl (inr (d', k, bulk.insert_many-kept db ds d' h))
  Settled-Keeps d t t' db ds w (inr (inl h)) = inr (inl (w.throttles d h))
  Settled-Keeps d t t' db ds w (inr (inr h)) = inr (inr (omega (arith, h, w.fails)))

  count_chunk-Keeps :
      (c : List D) (a : Answer) (t t' : Counts)
      → count_chunk bulk throttle_codes c a t ≡ some t'
      → Keeps bulk throttle_codes t t'
  unfolding count_chunk
  count_chunk-Keeps c written t t' h =
      subst (Keeps bulk throttle_codes t) (some-injective _ _ h)
        (record { throttles = λ d k. k; fails = omega arith })
  count_chunk-Keeps c (bulk_write_error errs) t t' h =
      let w = count_errors-Keeps bulk throttle_codes c errs t in
      subst (Keeps bulk throttle_codes t) (some-injective _ _ h)
        (record { throttles = w.throttles; fails = w.fails })
  count_chunk-Keeps c raised t t' h = absurd (ground (arith, h))

  All-IsIn : (P : D → Type 0) (d : D) (ds : List D) → All P ds → IsIn d ds → P d
  All-IsIn P d [] h k = absurd k
  All-IsIn P d (x ∷ xs) h (inl e) = subst P (sym e) h.0
  All-IsIn P d (x ∷ xs) h (inr k) = All-IsIn P d xs h.1 k

  -- Each document of a chunk is settled by the answer on the chunk.
  count_chunk-Settled :
      (c : List D) (t t' : Counts) (db : bulk.Db) (a : Answer) (d : D)
      → (bulk.insert_many db c).0 ≡ a
      → count_chunk bulk throttle_codes c a t ≡ some t'
      → IsIn d c
      → Settled d t' (bulk.insert_many db c).1
  unfolding Settled count_chunk Named
  count_chunk-Settled c t t' db written d e h k = inl (
      inl (
        All-IsIn (bulk.IsStored (bulk.insert_many db c).1) d c (bulk.insert_many-written db c e) k))
  count_chunk-Settled c t t' db (bulk_write_error errs) d e h k =
      let (i, g) = IsIn-get_elem? d c k in
      subst (λ x. Settled d x (bulk.insert_many db c).1) (some-injective _ _ h)
        (elim (Bool-cases (is_in i (indices errs))) [
          | inl q ↦ elim (count_errors-Named bulk throttle_codes c errs t i d g q) [
            | inl r ↦ inl (inr (bulk.insert_many-duplicate db c errs i d e g r))
            | inr r ↦ inr r
          ]
          | inr q ↦ inl (inl (bulk.insert_many-unnamed db c errs i d e g q))
        ])
  count_chunk-Settled c t t' db raised d e h k = absurd (ground (arith, h))

  insert_chunks-Settled :
      (cs : List (List D)) (t t' : Counts) (db db' : bulk.Db) (d : D)
      → insert_chunks bulk throttle_codes cs t db ≡ (some t', db')
      → Settled d t db ⊎ IsInChunk d cs
      → Settled d t' db'
  unfolding insert_chunks
  insert_chunks-Settled [] t t' db db' d h (inl k) =
      subst (λ x. x) (λ i. Settled d (some-injective _ _ (ap (λ r. r.0) h) i) (h i).1) k
  insert_chunks-Settled [] t t' db db' d h (inr k) = absurd k
  insert_chunks-Settled (c ∷ cs) t t' db db' d h k =
      let (t1, e, h') = insert_chunks-cons bulk throttle_codes c cs t t' db db' h in
      let db1 = (bulk.insert_many db c).1 in
      let r = insert_chunks-Settled cs t1 t' db1 db' d h' in
      elim k [
        | inl q ↦ r (inl (Settled-Keeps d t t1 db c (count_chunk-Keeps c _ t t1 e) q))
        | inr q ↦ elim q [
          | inl j ↦ r (inl (count_chunk-Settled c t t1 db _ d refl e j))
          | inr j ↦ r (inr j)
        ]
      ]

  attempt-Settled :
      (chunk_size n : ℕ) (t t' : Counts) (db db' : bulk.Db) (d : D)
      → 0 < chunk_size
      → attempt bulk throttle_codes chunk_size n t db ≡ (some t', db')
      → Settled d t db
      → Settled d t' db'
  unfolding attempt Settled
  attempt-Settled chunk_size zero t t' db db' d p h k =
      subst (λ x. x) (λ i. Settled d (some-injective _ _ (ap (λ r. r.0) h) i) (h i).1) k
  attempt-Settled chunk_size (suc n) t t' db db' d p h k =
      elim (attempt-suc bulk throttle_codes chunk_size n t t' db db' h) [
        | inl (e, e') ↦ subst (λ x. x) (λ i. Settled d (e i) (e' i)) k
        | inr (t1, db1, c, h') ↦
            let cs = sliced chunk_size (length t.throttled) t.throttled in
            let s = insert_chunks-Settled cs (record t { throttled = [] }) t1 db db1 d c in
            attempt-Settled chunk_size n t1 t' db1 db' d p h' (elim k [
              | inl q ↦ s (inl (inl q))
              | inr q ↦ elim q [
                | inl j ↦ s (inr (sliced-IsInChunk chunk_size _ d t.throttled p (omega arith) j))
                | inr j ↦ s (inl (inr (inr j)))
              ]
            ])
      ]

  close-none :
      (t : Counts) (d : D)
      → (close bulk throttle_codes t).1 ≡ 0
      → ¬ (IsIn d t.throttled ⊎ (0 < t.failed))
  unfolding close
  close-none t d h k = elim (Bool-cases (is_empty t.throttled)) [
    | inl e ↦ elim k [
      | inl j ↦ not_in_empty t.throttled e j
      | inr j ↦ omega (arith, j, rw (e, close) at h)
    ]
    | inr e ↦ omega (arith, length-is_empty t.throttled e, rw (e, close) at h)
  ]
    where
      not_in_empty : (xs : List D) → is_empty xs ≡ true → ¬ IsIn d xs
      not_in_empty [] e j = j
      not_in_empty (x ∷ xs) e j = ground (arith, e)

      length-is_empty : (xs : List D) → is_empty xs ≡ false → 0 < length xs
      length-is_empty [] e = absurd (ground (arith, e))
      length-is_empty (x ∷ xs) e = omega arith

  -- With a positive chunk size, whatever the number of attempts and whatever was throttled, if the
  -- report is that nothing failed then, for every given document, it or a document with the same value
  -- of a unique key is in the collection.
  pub insert_many-stored :
      (max_attempts chunk_size : ℕ) (docs : List D) (db db' : bulk.Db) (succeeded : ℕ)
      (codes : List ℕ) (d : D)
      → 0 < chunk_size
      → mongodb_retry_insert_many bulk throttle_codes max_attempts chunk_size docs db
        ≡ (some (succeeded, 0, codes), db')
      → IsIn d docs
      → bulk.IsStored db' d ⊎ ((d' : D) × bulk.SameKey d d' × bulk.IsStored db' d')
  unfolding Settled
  insert_many-stored max_attempts chunk_size docs db db' succeeded codes d p h k =
      let (t, a, c) =
        insert_many-attempt bulk throttle_codes max_attempts chunk_size docs db db' _ h in
      elim (attempt-Settled chunk_size max_attempts (no_tally bulk throttle_codes docs) t db db' d p
        a (inr (inl k))) [ inl q ↦ q | inr q ↦ absurd (close-none t d (ap (λ r. r.1) c) q) ]
