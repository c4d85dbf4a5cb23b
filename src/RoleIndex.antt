-- ===== src/RoleIndex.antt =====
-- Lookup by role: `definition_by_role`, `read_role` and `write_role` of
-- src/functional_model/cia402_drive/profile/object_dictionary.py, and the index that replaces the scan,
-- src/functional_model/cia402_drive/behaviour_model/f_kr_cmmt/od_role_index.py.
pub mod Equivalence
mod Tests
use Prim.Native.String.{String}
use package.text.Mathlib.Text.{◌==◌ as str_eq}
use ethercat_device_simulato.Prelude.{
  ℕ, Bool, true, false, Option, none, some, List, [], ◌∷◌, ◌++◌, if◌then◌else◌,
}
use ethercat_device_simulato.Exec.{Error, key_error, Result, ok, err, Exec, lift, ◌>>=◌}
use ethercat_device_simulato.Value.{Value}
use ethercat_device_simulato.Od.{
  Definition, OdEntry, OdModel, Changes, Dict, define, overlay, read, write,
}

-- `==` of two roles, of which either may be `None`.
unfoldable pub role_eq : Option String → Option String → Bool
role_eq none none = true
role_eq (some a) (some b) = str_eq a b
role_eq _ _ = false

-- The dictionary from roles to definitions, in insertion order.
abbrev pub Index : Type 0 → Type 0
Index F = List (Option String × List (Definition F))

module _ {F : Type 0} where
  -- The definitions of a role, in the order of the entries.
  unfoldable pub with_role : Option String → Dict (OdEntry F) → List (Definition F)
  with_role role [] = []
  with_role role ((k, e) ∷ d) =
      let rest = with_role role d in
      if role_eq e.definition.role role then e.definition ∷ rest else rest

  -- `matches[0]` if there is one match, else `KeyError`.
  unfoldable pub only_one : List (Definition F) → Result (Definition F)
  only_one (d ∷ []) = ok d
  only_one _ = err key_error

  -- `definition_by_role(role)`
  unfoldable pub definition_by_role : Option String → OdModel F → Result (Definition F)
  definition_by_role role od = only_one (with_role role od.entries)

  -- `read_role(role)`
  unfoldable pub read_role : String → Exec (OdModel F) (Value F)
  read_role role = do
    d ← (λ od. (definition_by_role (some role) od, od))
    λ od. (read d.index (some d.subindex) od, od)

  -- `write_role(role, value)`
  unfoldable pub write_role : String → Value F → Exec (OdModel F) (Unit {0})
  write_role role v = do
    d ← (λ od. (definition_by_role (some role) od, od))
    write d.index v (some d.subindex)

  -- `index.get(role, ())`
  unfoldable pub get : Option String → Index F → List (Definition F)
  get role [] = []
  get role ((r, ds) ∷ index) = if role_eq r role then ds else get role index

  -- `rebuilt.setdefault(role, []).append(definition)`
  unfoldable pub append_to : Option String → Definition F → Index F → Index F
  append_to role d [] = (role, d ∷ []) ∷ []
  append_to role d ((r, ds) ∷ index) =
      if role_eq r role then (r, ds ++ d ∷ []) ∷ index else (r, ds) ∷ append_to role d index

  -- The loop of `rebuild`.
  unfoldable pub rebuild_from : Index F → Dict (OdEntry F) → Index F
  rebuild_from index [] = index
  rebuild_from index ((k, e) ∷ d) = rebuild_from (append_to e.definition.role e.definition index) d

-- An Object Dictionary with `install_role_index`: the closure's `index` stands beside it.
pub record Indexed (F : Type 0) : Type 0 where
  pub od : OdModel F
  pub index : Option (Index F)

module _ {F : Type 0} where
  -- `rebuild()`
  unfoldable pub rebuild : OdModel F → Index F
  rebuild od = rebuild_from [] od.entries

  -- `install_role_index(od)`: the index is built before the first lookup.
  unfoldable pub install_role_index : OdModel F → Indexed F
  install_role_index od = record { od = od; index = some (rebuild od) }

  or_rebuilt : Option (Index F) → OdModel F → Index F
  or_rebuilt none od = rebuild od
  or_rebuilt (some index) od = index

  -- `definition_by_role(role)` of the index, which rebuilds it first where a definition has changed.
  unfoldable pub indexed_by_role : Option String → Exec (Indexed F) (Definition F)
  unfolding or_rebuilt
  indexed_by_role role s =
      let index = or_rebuilt s.index s.od in
      (only_one (get role index), record s { index = some index })

  -- `invalidate_after(od.define)` and `invalidate_after(od.overlay)`
  unfoldable pub indexed_define : ℕ → ℕ → Changes F → Indexed F → Indexed F
  indexed_define index sub c s = record { od = define index sub c s.od; index = none }

  unfoldable pub indexed_overlay : ℕ → ℕ → Changes F → Indexed F → Indexed F
  indexed_overlay index sub c s = record { od = overlay index sub c s.od; index = none }

  -- A write of a value goes past the index.
  unfoldable pub indexed_write : ℕ → Value F → Option ℕ → Exec (Indexed F) (Unit {0})
  indexed_write index v sub s = let (r, od) = write index v sub s.od in (r, record s { od = od })
