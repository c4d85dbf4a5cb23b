-- ===== src/Fleet/Tests.antt =====
-- The theorems on the fleet for two axes over one store.
use ethercat_device_simulato.Prelude.{
  ℕ, pos, ◌≡◌, ◌≢◌, refl, arith, true, none, some, List, [], ◌∷◌, get_elem?,
}
use ethercat_device_simulato.Text.{text_eq}
use ethercat_device_simulato.Fault.{AxisFault, new}
use ethercat_device_simulato.Adapter.{rw}
use ethercat_device_simulato.Storage.Disk.{Disk, snapshot, file, file_eq, set_entry, below}
use ethercat_device_simulato.Storage.Snapshot.Tests.{json, od, device as stored}
use ethercat_device_simulato.Text.{codes}
use ethercat_device_simulato.Codec.Tests.{floats}
use ethercat_device_simulato.Axis.{Device, Model, write}
use ethercat_device_simulato.Axis.Tests.{echo, feedback}
use ethercat_device_simulato.Axis.Dispatch.Isolation.{answered}
use ethercat_device_simulato.Fleet.{Fleet, dispatch_request}
use ethercat_device_simulato.Fleet.Isolation.{dispatch_request_answers}
use ethercat_device_simulato.Fleet.Snapshots.{save_axis, dispatch_request-snapshots}

abbrev axis_of : ℕ → Device (List ℕ) Disk
axis_of i = record {
  ops = echo;
  slave_index = i;
  rx_size = 3;
  entries = λ index sub. some (record { bits = 8; access = rw });
  store = some (save_axis floats json (λ a. od) true none 5 stored);
}

abbrev parked : AxisFault → Model (List ℕ) (Unit {0})
parked g = record {
  adapter = feedback;
  disk = tt;
  guard = g;
  last_cycle = none;
  cycles = 0;
  save_diagnostic = none;
}

-- The snapshot of the other axis is there.
abbrev disk : Disk
unfolding set_entry
disk = record {
  files = λ n. record { content = 4 ∷ 7 ∷ []; synced = true };
  next = 1;
  visible = set_entry (snapshot (codes "axis-1")) (some 0) (λ n. none);
  stored = set_entry (snapshot (codes "axis-1")) (some 0) (λ n. none);
}

abbrev fleet : Fleet (List ℕ) Disk
fleet = record {
  disk = disk;
  models = (axis_of 0, parked (new 0 feedback)) ∷ (axis_of 1, parked (new 1 feedback)) ∷ [];
}

different : ◌≢◌ {A = ℕ} 1 0
different = ground arith

-- The save command of the first axis, whose parameter set is axis-0.
dispatch_request-snapshots_example :
    (get_elem?
        (dispatch_request 1 1 (some (pos 0)) (write 0x2005 1 (some (1 ∷ []))) fleet).1.models
        1
      ≡ get_elem? fleet.models 1)
    × (file
          (snapshot (codes "axis-1"))
          (dispatch_request 1 1 (some (pos 0)) (write 0x2005 1 (some (1 ∷ []))) fleet).1.disk
        ≡ file (snapshot (codes "axis-1")) disk)
unfolding text_eq set_entry file_eq below
dispatch_request-snapshots_example =
    dispatch_request-snapshots floats json (λ a. od) true none 5 stored (codes "axis-1") 1 1 0 1
      (write 0x2005 1 (some (1 ∷ []))) fleet (axis_of 0) (parked (new 0 feedback)) refl refl
      different refl refl

dispatch_request_answers_example :
    answered (dispatch_request 1 1 (some (pos 1)) (write 0x2005 1 (some (1 ∷ []))) fleet).0 ≡ true
dispatch_request_answers_example =
    dispatch_request_answers 1 1 1 (write 0x2005 1 (some (1 ∷ []))) fleet (axis_of 1)
      (parked (new 1 feedback)) refl refl
