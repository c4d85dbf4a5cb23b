-- ===== src/ConfiguredOd/Reset.antt =====
-- What a reset of the PDO values changes.
use ethercat_device_simulato.Prelude.{
  ℕ, ◌≡◌, arith, ◌||◌, Option, some, [], ◌∷◌, map, if◌then◌else◌,
}
use ethercat_device_simulato.Exec.{ok}
use ethercat_device_simulato.Od.{Key, OdEntry, OdModel, Dict, lookup, storage_key, read, definition}
use ethercat_device_simulato.ConfiguredOd.{reset_entry, reset_pdo_values}

module _ {F : Type 0} where
  reset_all : Dict (OdEntry F) → Dict (OdEntry F)
  reset_all es = map (λ (x : Key × OdEntry F). (x.0, reset_entry x.1)) es

  lookup-reset_all :
      (k : Key) (e : OdEntry F) (es : Dict (OdEntry F))
      → lookup k es ≡ some e
      → lookup k (reset_all es) ≡ some (reset_entry e)
  unfolding lookup reset_all
  lookup-reset_all k e [] h = cc
  lookup-reset_all k e ((j, x) ∷ es) h = ground (arith, lookup-reset_all k e es)

  -- After a reset of the PDO values an entry that is there keeps its definition; it reads as its
  -- default where it is mapped into a PDO, and as before where it is not.
  pub read-reset_pdo_values :
      (index : ℕ) (sub : Option ℕ) (od : OdModel F) (e : OdEntry F)
      → lookup (storage_key index sub) od.entries ≡ some e
      → (read index sub (reset_pdo_values od)
          ≡ ok (if e.definition.rxpdo || e.definition.txpdo then e.definition.default else e.value))
        × (definition index sub (reset_pdo_values od) ≡ ok e.definition)
  unfolding read definition reset_pdo_values reset_all reset_entry
  read-reset_pdo_values index sub od e h =
      ground (arith, lookup-reset_all (storage_key index sub) e od.entries h)
