-- ===== src/Writes/Errors.antt =====
-- What the error reports of `mongodb_retry_insert_many` do to the tally, document by document.
use retro_doc.Prelude.{
  ℕ, zero, suc, ◌≤◌, ◌<◌, ◌==◌, true, some, List, [], ◌∷◌, ◌++◌, ◌≡◌, ◌∙◌, sym, subst, ap, refl,
  length, length-take-drop, take, drop, Bool-cases, Option-cases, ◌⊎◌, inl, inr, arith,
}
use retro_doc.Writes.Bulk.{Bulk, WriteError, get_elem?, is_in, indices, duplicates}
use retro_doc.Writes.Insert.{sliced, Tally, collect, count_error, count_errors}

module _ {D : Type 0} where
  -- The document is among these; it computes to a sum.
  abbrev pub IsIn : D → List D → Type 0
  IsIn d [] = ⊥
  IsIn d (x ∷ xs) = (d ≡ x) ⊎ IsIn d xs

  abbrev pub IsInChunk : D → List (List D) → Type 0
  IsInChunk d [] = ⊥
  IsInChunk d (c ∷ cs) = IsIn d c ⊎ IsInChunk d cs

  IsIn-append : (d : D) (xs ys : List D) → IsIn d xs → IsIn d (xs ++ ys)
  IsIn-append d [] ys h = absurd h
  IsIn-append d (x ∷ xs) ys (inl e) = inl e
  IsIn-append d (x ∷ xs) ys (inr h) = inr (IsIn-append d xs ys h)

  IsIn-last : (d : D) (xs : List D) → IsIn d (xs ++ d ∷ [])
  IsIn-last d [] = inl refl
  IsIn-last d (x ∷ xs) = inr (IsIn-last d xs)

  IsIn-take-drop :
      (n : ℕ) (d : D) (xs : List D) → IsIn d xs → IsIn d (take n xs) ⊎ IsIn d (drop n xs)
  IsIn-take-drop zero d xs h = inr h
  IsIn-take-drop (suc n) d [] h = absurd h
  IsIn-take-drop (suc n) d (x ∷ xs) (inl e) = inl (inl e)
  IsIn-take-drop (suc n) d (x ∷ xs) (inr h) = elim (IsIn-take-drop n d xs h) [
    | inl k ↦ inl (inr k)
    | inr k ↦ inr k
  ]

  pub IsIn-get_elem? : (d : D) (xs : List D) → IsIn d xs → (i : ℕ) × (get_elem? xs i ≡ some d)
  unfolding get_elem?
  IsIn-get_elem? d [] h = absurd h
  IsIn-get_elem? d (x ∷ xs) (inl e) = (0, ap some (sym e))
  IsIn-get_elem? d (x ∷ xs) (inr h) = let (i, e) = IsIn-get_elem? d xs h in (suc i, e)

  pub sliced-IsInChunk :
      (size fuel : ℕ) (d : D) (xs : List D)
      → 0 < size
      → length xs ≤ fuel
      → IsIn d xs
      → IsInChunk d (sliced size fuel xs)
  unfolding sliced
  sliced-IsInChunk size zero d [] p h k = absurd k
  sliced-IsInChunk zero (suc fuel) d [] p h k = absurd k
  sliced-IsInChunk (suc size) (suc fuel) d [] p h k = absurd k
  sliced-IsInChunk size zero d (x ∷ xs) p h k = absurd (ground (arith, h))
  sliced-IsInChunk zero (suc fuel) d (x ∷ xs) p h k = absurd (ground (arith, p))
  sliced-IsInChunk (suc size) (suc fuel) d (x ∷ xs) p h k =
      let r =
        sliced-IsInChunk (suc size) fuel d (drop size xs) p
          (omega (arith, h, length-take-drop size xs)) in
      elim (IsIn-take-drop (suc size) d (x ∷ xs) k) [ inl q ↦ inl q | inr q ↦ inr (r q) ]

module _ {D : Type 0} (bulk : Bulk D) (throttle_codes : List ℕ) where
  abbrev Counts : Type 0
  Counts = Tally bulk throttle_codes

  -- Nothing that is throttled or failed is forgotten.
  pub record Keeps (t t' : Counts) : Type 0 where
    pub throttles : (d : D) → IsIn d t.throttled → IsIn d t'.throttled
    pub fails : t.failed ≤ t'.failed

  count_error-Keeps :
      (chunk : List D) (e : WriteError) (t : Counts)
      → Keeps t (count_error bulk throttle_codes chunk e t)
  unfolding count_error collect
  count_error-Keeps chunk e t = elim (Bool-cases (e.code == 11000)) [
    | inl c ↦ rw c (record { throttles = λ d h. h; fails = omega arith })
    | inr c ↦ rw c (elim (Bool-cases (is_in e.code throttle_codes)) [
      | inl k ↦ rw k (elim (Option-cases (get_elem? chunk e.index)) [
        | inl g ↦ rw g (record { throttles = λ d h. h; fails = omega arith })
        | inr (x, g) ↦
            rw g (record { throttles = λ d h. IsIn-append d t.throttled _ h; fails = omega arith })
      ])
      | inr k ↦ rw k (record { throttles = λ d h. h; fails = omega arith })
    ])
  ]

  pub count_errors-Keeps :
      (chunk : List D) (es : List WriteError) (t : Counts)
      → Keeps t (count_errors bulk throttle_codes chunk es t)
  unfolding count_errors
  count_errors-Keeps chunk [] t = record { throttles = λ d h. h; fails = omega arith }
  count_errors-Keeps chunk (e ∷ es) t =
      let a = count_error-Keeps chunk e t in
      let b = count_errors-Keeps chunk es (count_error bulk throttle_codes chunk e t) in
      record {
        throttles = λ d h. b.throttles d (a.throttles d h);
        fails = omega (arith, a.fails, b.fails);
      }

  -- A document that is named by an error is a duplicate, or throttled, or a failure is counted.
  unfoldable pub Named : List WriteError → ℕ → D → Counts → Type 0
  Named es i d t =
      (is_in i (indices (duplicates es)) ≡ true) ⊎ (IsIn d t.throttled ⊎ (0 < t.failed))

  count_error-Named :
      (chunk : List D) (e : WriteError) (t : Counts) (d : D)
      → get_elem? chunk e.index ≡ some d
      → Named (e ∷ []) e.index d (count_error bulk throttle_codes chunk e t)
  unfolding count_error collect is_in Named
  count_error-Named chunk e t d g = elim (Bool-cases (e.code == 11000)) [
    | inl c ↦ rw c (inl (ground arith))
    | inr c ↦ rw c (elim (Bool-cases (is_in e.code throttle_codes)) [
      | inl k ↦ rw k (rw g (inr (inl (IsIn-last d t.throttled))))
      | inr k ↦ rw k (inr (inr (omega arith)))
    ])
  ]

  Named-Keeps :
      (es : List WriteError) (i : ℕ) (d : D) (t t' : Counts)
      → Keeps t t'
      → Named es i d t
      → Named es i d t'
  unfolding Named
  Named-Keeps es i d t t' w (inl h) = inl h
  Named-Keeps es i d t t' w (inr (inl h)) = inr (inl (w.throttles d h))
  Named-Keeps es i d t t' w (inr (inr h)) = inr (inr (omega (arith, h, w.fails)))

  Named-cons :
      (e : WriteError) (es : List WriteError) (i : ℕ) (d : D) (t : Counts)
      → (Named (e ∷ []) i d t → Named (e ∷ es) i d t) × (Named es i d t → Named (e ∷ es) i d t)
  unfolding Named is_in
  Named-cons e es i d t = elim (Bool-cases (e.code == 11000)) [
    | inl c ↦ rw c (
      λ h. elim h [ inl k ↦ inl (ground (arith, k)) | inr k ↦ inr k ],
      λ h. elim h [ inl k ↦ inl (ground (arith, k)) | inr k ↦ inr k ],
    )
    | inr c ↦ rw c (
      λ h. elim h [ inl k ↦ absurd (ground (arith, k)) | inr k ↦ inr k ],
      λ h. elim h [ inl k ↦ inl k | inr k ↦ inr k ],
    )
  ]

  pub count_errors-Named :
      (chunk : List D) (es : List WriteError) (t : Counts) (i : ℕ) (d : D)
      → get_elem? chunk i ≡ some d
      → is_in i (indices es) ≡ true
      → Named es i d (count_errors bulk throttle_codes chunk es t)
  unfolding count_errors is_in
  count_errors-Named chunk [] t i d g h = absurd (ground (arith, h))
  count_errors-Named chunk (e ∷ es) t i d g h =
      let t1 = count_error bulk throttle_codes chunk e t in
      let r = count_errors-Named chunk es t1 i d g in
      let c = Named-cons e es i d (count_errors bulk throttle_codes chunk es t1) in
      elim (Bool-cases (i == e.index)) [
        | inl k ↦
            let q : i ≡ e.index = ground (arith, k) in
            c.0 (
              Named-Keeps (e ∷ []) i d t1 _ (count_errors-Keeps chunk es t1) (
                subst (λ j. Named (e ∷ []) j d t1) (sym q)
                  (count_error-Named chunk e t d (ap (get_elem? chunk) (sym q) ∙ g))))
        | inr k ↦ c.1 (r (ground (arith, h, k)))
      ]
