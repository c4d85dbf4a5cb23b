-- ===== src/RoleIndex/Tests.antt =====
-- The theorem on the role index at a concrete dictionary.
use ethercat_device_simulato.Prelude.{ℕ, ◌≡◌, pos, none, some, List, [], ◌∷◌}
use ethercat_device_simulato.Value.{int}
use ethercat_device_simulato.Od.Tests.{model, statusword}
use ethercat_device_simulato.RoleIndex.{definition_by_role, install_role_index, indexed_by_role}
use ethercat_device_simulato.RoleIndex.Equivalence.{
  Update, define_entry, write_value, look_up, updates, plain_updates, indexed_by_role_lem,
}

abbrev changes : List (Update ℕ)
changes =
    write_value 0x6041 (int (pos 8)) none
    ∷ define_entry 0x6042 0 statusword
    ∷ look_up (some "actual_position")
    ∷ []

indexed_by_role_example :
    let x = updates changes (install_role_index model) in
    ((indexed_by_role (some "statusword") x).0
      ≡ definition_by_role (some "statusword") (plain_updates changes model))
    × ((indexed_by_role (some "statusword") x).1.od ≡ plain_updates changes model)
indexed_by_role_example = indexed_by_role_lem changes (some "statusword") model
