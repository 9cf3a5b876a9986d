-- ===== src/Writes/Bulk.antt =====
-- `insert_many(ordered=False)` of a MongoDB collection: a parameter of the model. The laws are the
-- documented behaviour of an unordered bulk write: every document is tried, a report names each
-- failing document once, by its index in the batch, and a document that is not named is stored; an
-- error 11000 says that a document with the same value of a unique key is stored, be it another one.
-- Nothing that is stored is lost.
use retro_doc.Prelude.{
  ℕ, zero, suc, ◌≤◌, ◌<◌, ◌==◌, Bool, true, false, ◌||◌, Option, none, some, List, [], ◌∷◌, ◌≡◌,
  All, length, map, if◌then◌else◌,
}

pub record WriteError : Type 0 where
  pub index : ℕ
  pub code : ℕ

-- The documents are written, or `BulkWriteError`, or another exception.
pub data Answer : Type 0 where
  written : Answer
  bulk_write_error : List WriteError → Answer
  raised : Answer

unfoldable pub get_elem? {ℓ} : {A : Type ℓ} → List A → ℕ → Option A
get_elem? [] i = none
get_elem? (x ∷ xs) zero = some x
get_elem? (x ∷ xs) (suc i) = get_elem? xs i

-- `n in errored_indices`
unfoldable pub is_in : ℕ → List ℕ → Bool
is_in n [] = false
is_in n (m ∷ ms) = n == m || is_in n ms

-- `len(set(ns))`
unfoldable pub distinct_count : List ℕ → ℕ
unfolding is_in
distinct_count [] = 0
distinct_count (n ∷ ns) = let rest = distinct_count ns in if is_in n ns then rest else suc rest

abbrev pub indices : List WriteError → List ℕ
indices errs = map (λ e. e.index) errs

abbrev pub duplicates : List WriteError → List WriteError
duplicates [] = []
duplicates (e ∷ es) = if e.code == 11000 then e ∷ duplicates es else duplicates es

-- What a report on `size` documents says: indices of the batch, each once.
pub record IsReport (size : ℕ) (errs : List WriteError) : Type 0 where
  pub in_range : All (λ e. e.index < size) errs
  pub once : distinct_count (indices errs) ≡ length errs
  pub at_most : length errs ≤ size

pub record Bulk (D : Type 0) : Type 1 where
  pub Db : Type 0
  pub IsStored : Db → D → Type 0
  -- The documents have the same value of a unique key of the collection.
  pub SameKey : D → D → Type 0
  pub insert_many : Db → List D → Answer × Db
  pub insert_many-kept :
      (db : Db) (ds : List D) (d : D) → IsStored db d → IsStored (insert_many db ds).1 d
  pub insert_many-written :
      (db : Db) (ds : List D)
      → (insert_many db ds).0 ≡ written
      → All (IsStored (insert_many db ds).1) ds
  pub insert_many-report :
      (db : Db) (ds : List D) (errs : List WriteError)
      → (insert_many db ds).0 ≡ bulk_write_error errs
      → IsReport (length ds) errs
  pub insert_many-unnamed :
      (db : Db) (ds : List D) (errs : List WriteError) (i : ℕ) (d : D)
      → (insert_many db ds).0 ≡ bulk_write_error errs
      → get_elem? ds i ≡ some d
      → is_in i (indices errs) ≡ false
      → IsStored (insert_many db ds).1 d
  pub insert_many-duplicate :
      (db : Db) (ds : List D) (errs : List WriteError) (i : ℕ) (d : D)
      → (insert_many db ds).0 ≡ bulk_write_error errs
      → get_elem? ds i ≡ some d
      → is_in i (indices (duplicates errs)) ≡ true
      → (d' : D) × SameKey d d' × IsStored (insert_many db ds).1 d'
