-- ===== src/Mongo.antt =====
-- A MongoDB collection as the services use it through Beanie: a parameter of the model. The laws are
-- the documented behaviour: an insert that a unique index rejects raises `DuplicateKeyError`, any
-- other appends the document; a query answers with the first match in insertion order, or the last
-- one where it sorts by `_id` downwards; an update writes the first match; `find_all` sorts by `_id` downwards. `none` is the exception.
pub mod Kept
pub mod Lists
use retro_doc.Prelude.{
  ℕ, Bool, true, false, ◌||◌, Option, none, some, is_some, List, [], ◌∷◌, ◌++◌, ◌≡◌, if◌then◌else◌,
}

module _ {D : Type 0} where
  unfoldable pub find : (D → Bool) → List D → Option D
  find p [] = none
  find p (d ∷ ds) = if p d then some d else find p ds

  unfoldable pub find_last : (D → Bool) → List D → Option D
  find_last p [] = none
  find_last p (d ∷ ds) =
      let later = find_last p ds in
      elim later [ some e ↦ some e | none ↦ if p d then some d else none ]

  -- The matches, the latest first.
  unfoldable pub find_newest : (D → Bool) → List D → List D
  find_newest p [] = []
  find_newest p (d ∷ ds) = find_newest p ds ++ (if p d then d ∷ [] else [])

  unfoldable pub any : (D → Bool) → List D → Bool
  any p [] = false
  any p (d ∷ ds) = p d || any p ds

  unfoldable pub modify_first : (D → Bool) → (D → D) → List D → List D
  modify_first p f [] = []
  modify_first p f (d ∷ ds) = if p d then f d ∷ ds else d ∷ modify_first p f ds

-- `conflicts d e` says that the unique indexes do not admit both.
pub record Collection (D : Type 0) (conflicts : D → D → Bool) : Type 1 where
  pub Db : Type 0
  pub docs : Db → List D
  pub insert : Db → D → Option Db
  pub find_one : Db → (D → Bool) → Option D
  pub find_latest : Db → (D → Bool) → Option D
  pub find_all : Db → (D → Bool) → List D
  -- the new contents, and whether a document matched
  pub update_one : Db → (D → Bool) → (D → D) → Option (Db × Bool)
  pub insert-conflict : (db : Db) (d : D) → any (conflicts d) (docs db) ≡ true → insert db d ≡ none
  pub insert-free :
      (db : Db) (d : D)
      → any (conflicts d) (docs db) ≡ false
      → (db' : Db) × (insert db d ≡ some db') × (docs db' ≡ docs db ++ d ∷ [])
  pub find_one-docs : (db : Db) (p : D → Bool) → find_one db p ≡ find p (docs db)
  pub find_latest-docs : (db : Db) (p : D → Bool) → find_latest db p ≡ find_last p (docs db)
  pub find_all-docs : (db : Db) (p : D → Bool) → find_all db p ≡ find_newest p (docs db)
  -- an update after which no document conflicts with more than before is not rejected
  pub update_one-docs :
      (db : Db) (p : D → Bool) (f : D → D)
      → ((d e : D) → p d ≡ true → conflicts e (f d) ≡ true → conflicts e d ≡ true)
      → (db' : Db) × (update_one db p f ≡ some (db', is_some (find p (docs db))))
        × (docs db' ≡ modify_first p f (docs db))
