-- ===== src/Writes/Throttled.antt =====
-- A collection that throttles the first document of each of its next batches, a given number of
-- them, and meets the laws.
use retro_doc.Prelude.{
  ℕ, zero, suc, true, false, some, List, [], ◌∷◌, ◌++◌, ◌≡◌, ◌≢◌, sym, subst, ap, refl, All,
  All-map, length, inl, inr, arith,
}
use mathlib.Core.Option.{some-injective}
use retro_doc.Writes.Bulk.{
  Bulk, Answer, written, bulk_write_error, raised, WriteError, IsReport, get_elem?, is_in,
  distinct_count, indices, duplicates,
}
use retro_doc.Writes.Errors.{IsIn}

-- The batches that will be throttled, and the documents.
abbrev pub Throttling : Type 0
Throttling = ℕ × List ℕ

abbrev pub throttled_first : List WriteError
throttled_first = record { index = 0; code = 16500 } ∷ []

unfoldable pub insert_throttled : Throttling → List ℕ → Answer × Throttling
insert_throttled (n, stored) [] = (written, (n, stored))
insert_throttled (zero, stored) (d ∷ ds) = (written, (zero, d ∷ ds ++ stored))
insert_throttled (suc n, stored) (d ∷ ds) = (bulk_write_error throttled_first, (n, ds ++ stored))

abbrev errors_of : Answer → List WriteError
errors_of written = []
errors_of (bulk_write_error errs) = errs
errors_of raised = []

IsIn-right : (d : ℕ) (xs ys : List ℕ) → IsIn d ys → IsIn d (xs ++ ys)
IsIn-right d [] ys h = h
IsIn-right d (x ∷ xs) ys h = inr (IsIn-right d xs ys h)

All-left : (xs ys : List ℕ) → All (λ d. IsIn d (xs ++ ys)) xs
All-left [] ys = tt
All-left (x ∷ xs) ys = (
  inl refl,
  All-map (λ d. IsIn d (xs ++ ys)) (λ d. IsIn d (x ∷ xs ++ ys)) xs (λ d h. inr h) (All-left xs ys),
)

IsIn-at : (d : ℕ) (xs ys : List ℕ) (i : ℕ) → get_elem? xs i ≡ some d → IsIn d (xs ++ ys)
unfolding get_elem?
IsIn-at d [] ys i h = absurd (ground (arith, h))
IsIn-at d (x ∷ xs) ys zero h = inl (sym (some-injective _ _ h))
IsIn-at d (x ∷ xs) ys (suc i) h = inr (IsIn-at d xs ys i h)

pub kept_law :
    (db : Throttling) (ds : List ℕ) (d : ℕ) → IsIn d db.1 → IsIn d (insert_throttled db ds).1.1
unfolding insert_throttled
kept_law (n, stored) [] d h = h
kept_law (zero, stored) (x ∷ ds) d h = inr (IsIn-right d ds stored h)
kept_law (suc n, stored) (x ∷ ds) d h = IsIn-right d ds stored h

pub written_law :
    (db : Throttling) (ds : List ℕ)
    → (insert_throttled db ds).0 ≡ written
    → All (λ d. IsIn d (insert_throttled db ds).1.1) ds
unfolding insert_throttled
written_law (n, stored) [] h = tt
written_law (zero, stored) (d ∷ ds) h = All-left (d ∷ ds) stored
written_law (suc n, stored) (d ∷ ds) h = absurd (ground (arith, h))

pub IsReport-law :
    (db : Throttling) (ds : List ℕ) (errs : List WriteError)
    → (insert_throttled db ds).0 ≡ bulk_write_error errs
    → (errs ≡ throttled_first) × IsReport (length ds) errs
unfolding insert_throttled distinct_count is_in
IsReport-law (n, stored) [] errs h = absurd (ground (arith, h))
IsReport-law (zero, stored) (d ∷ ds) errs h = absurd (ground (arith, h))
IsReport-law (suc n, stored) (d ∷ ds) errs h =
    let e : throttled_first ≡ errs = ap errors_of h in
    (sym e, subst (IsReport (suc (length ds))) e reported)
  where
    reported : IsReport (suc (length ds)) throttled_first
    reported = record { in_range = (omega arith, tt); once = refl; at_most = omega arith }

pub unnamed_law :
    (db : Throttling) (ds : List ℕ) (errs : List WriteError) (i d : ℕ)
    → (insert_throttled db ds).0 ≡ bulk_write_error errs
    → get_elem? ds i ≡ some d
    → is_in i (indices errs) ≡ false
    → IsIn d (insert_throttled db ds).1.1
unfolding insert_throttled get_elem? is_in
unnamed_law (n, stored) [] errs i d h g k = absurd (ground (arith, g))
unnamed_law (zero, stored) (x ∷ ds) errs i d h g k = absurd (ground (arith, h))
unnamed_law (suc n, stored) (x ∷ ds) errs zero d h g k =
    absurd (ground (arith, subst (λ es. is_in 0 (indices es) ≡ false) (sym (ap errors_of h)) k))
unnamed_law (suc n, stored) (x ∷ ds) errs (suc i) d h g k = IsIn-at d ds stored i g

pub duplicate_law :
    (db : Throttling) (ds : List ℕ) (errs : List WriteError) (i d : ℕ)
    → (insert_throttled db ds).0 ≡ bulk_write_error errs
    → get_elem? ds i ≡ some d
    → is_in i (indices (duplicates errs)) ≡ true
    → (d' : ℕ) × (d ≡ d') × IsIn d' (insert_throttled db ds).1.1
unfolding insert_throttled is_in
duplicate_law db ds errs i d h g k = absurd (
    ground (
      arith,
      subst (λ es. is_in i (indices (duplicates es)) ≡ true) (IsReport-law db ds errs h).0 k,
    ))

abbrev pub throttling : Bulk ℕ
throttling = record {
  Db = Throttling;
  IsStored = λ db d. IsIn d db.1;
  SameKey = λ d d'. d ≡ d';
  insert_many = insert_throttled;
  insert_many-kept = kept_law;
  insert_many-written = written_law;
  insert_many-report = λ db ds errs h. (IsReport-law db ds errs h).1;
  insert_many-unnamed = unnamed_law;
  insert_many-duplicate = duplicate_law;
}

pub throttling-raises_nothing :
    (db : Throttling) (ds : List ℕ) → (throttling.insert_many db ds).0 ≢ raised
unfolding insert_throttled
throttling-raises_nothing (n, stored) [] h = ground (arith, h)
throttling-raises_nothing (zero, stored) (d ∷ ds) h = ground (arith, h)
throttling-raises_nothing (suc n, stored) (d ∷ ds) h = ground (arith, h)
