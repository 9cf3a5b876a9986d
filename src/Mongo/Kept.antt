-- ===== src/Mongo/Kept.antt =====
-- A collection as the list of its documents, which meets the laws: the theorems are applied to it at
-- concrete contents.
use retro_doc.Prelude.{
  Bool, true, false, Option, none, some, is_some, List, [], ◌∷◌, ◌++◌, ◌≡◌, refl, if◌then◌else◌,
}
use retro_doc.Mongo.{Collection, find, find_last, find_newest, any, modify_first}

module _ {D : Type 0} (conflicts : D → D → Bool) where
  unfoldable pub insert_kept : List D → D → Option (List D)
  unfolding any
  insert_kept ds d = if any (conflicts d) ds then none else some (ds ++ d ∷ [])

  pub insert_kept-conflict :
      (ds : List D) (d : D) → any (conflicts d) ds ≡ true → insert_kept ds d ≡ none
  unfolding insert_kept
  insert_kept-conflict ds d h = rw h

  pub insert_kept-free :
      (ds : List D) (d : D)
      → any (conflicts d) ds ≡ false
      → (ds' : List D) × (insert_kept ds d ≡ some ds') × (ds' ≡ ds ++ d ∷ [])
  unfolding insert_kept
  insert_kept-free ds d h = (ds ++ d ∷ [], rw h, refl)

  abbrev pub kept : Collection D conflicts
  kept = record {
    Db = List D;
    docs = λ db. db;
    insert = insert_kept;
    find_one = λ db p. find p db;
    find_latest = λ db p. find_last p db;
    find_all = λ db p. find_newest p db;
    update_one = λ db p f. some (modify_first p f db, is_some (find p db));
    insert-conflict = insert_kept-conflict;
    insert-free = insert_kept-free;
    find_one-docs = λ db p. refl;
    find_latest-docs = λ db p. refl;
    find_all-docs = λ db p. refl;
    update_one-docs = λ db p f h. (modify_first p f db, refl, refl);
  }
