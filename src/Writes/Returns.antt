-- ===== src/Writes/Returns.antt =====
-- When `mongodb_retry_insert_many` returns.
use retro_doc.Prelude.{ℕ, Option, List, ◌≢◌}
use retro_doc.Writes.Bulk.{Bulk, raised}
use retro_doc.Writes.Insert.{Tally}

module _ {D : Type 0} (bulk : Bulk D) (throttle_codes : List ℕ)
    (raises_nothing : (db : bulk.Db) (ds : List D) → (bulk.insert_many db ds).0 ≢ raised) where
  abbrev Counts : Type 0
  Counts = Tally bulk throttle_codes
