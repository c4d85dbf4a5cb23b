-- ===== src/Supervisor/Settings.antt =====
-- What the supervisor of docker/service.py reads before it starts: `settings`, `packet_owners`, `check_nic`,
-- and `healthcheck`. The rows of /proc files are lists of their fields, of
-- which none that is read is missing.
use ethercat_device_simulato.Prelude.{
  ℕ, ◌-◌, ◌%◌, ℤ, pos, negsuc, Bool, true, false, not, ◌&&◌, ◌||◌, Option, none, some, List, [],
  ◌∷◌, if◌then◌else◌, ltb, leb, ◌==◌, length, get_elem?,
}
use ethercat_device_simulato.Exec.{value_error, other, Result, ok, err, then_do}
use ethercat_device_simulato.Text.{Text, codes, text_eq, lower, strip, hex_value}
use ethercat_device_simulato.Config.{require, every, is_interface, is_name_code, text_member}
use ethercat_device_simulato.Config.Environment.{Environment, variable_or}

pub record Settings : Type 0 where
  pub interface : Text
  pub timing : Bool
  pub timeout : ℕ
  pub run_id : Text

unfoldable pub is_true : Text → Bool
unfolding text_eq
is_true s = text_eq s (codes "true") || text_eq s (codes "1")

unfoldable pub is_flag : Text → Bool
unfolding is_true text_eq
is_flag s = is_true s || text_eq s (codes "false") || text_eq s (codes "0")

-- `[A-Za-z0-9_-]{1,64}`
unfoldable pub is_run_id : Text → Bool
unfolding every is_name_code
is_run_id s = every is_name_code s && leb 1 (length s) && leb (length s) 64

unfoldable pub timeout_of : Result ℤ → Result ℕ
timeout_of (ok (pos n)) = ok n
timeout_of (ok (negsuc n)) = err value_error
timeout_of (err e) = err e

-- `env.get(key) or default`
unfoldable pub nonempty_or : Text → Text → Text
nonempty_or default [] = default
nonempty_or default s = s

-- `settings(env)`; `int(s)` and the time of day are parameters.
unfoldable pub settings : (Text → Result ℤ) → Text → Environment → Result Settings
unfolding variable_or require is_interface is_flag is_true timeout_of nonempty_or is_run_id lower
settings parse_int now env =
    let nic = variable_or [] (codes "KICKCAT_INTERFACE") env in
    let timing =
      lower (variable_or (codes "false") (codes "DEVICE_SIMULATOR_CYCLE_STATS_LOGS") env) in
    let run_id = nonempty_or now (variable_or [] (codes "DEVICE_SIMULATOR_RUN_ID") env) in
    then_do (require (is_interface nic)) (λ _. then_do (require (is_flag timing)) (λ _.
      then_do
        (timeout_of
          (parse_int (variable_or (codes "0") (codes "DEVICE_SIMULATOR_SESSION_TIMEOUT") env)))
        (λ timeout. then_do (require (is_run_id run_id)) (λ _. ok (record {
          interface = nic;
          timing = is_true timing;
          timeout = timeout;
          run_id = run_id;
        })))))

abbrev pub Row : Type 0
Row = List Text

unfoldable pub field_is : ℕ → Text → Row → Bool
unfolding text_eq
field_is i s row = elim (get_elem? row i) [ none ↦ false | some t ↦ text_eq t s ]

unfoldable pub last_field : Row → Option Text
last_field [] = none
last_field (s ∷ []) = some s
last_field (s ∷ t ∷ row) = last_field (t ∷ row)

-- A row of /proc/net/packet that belongs to the NIC with this interface index.
unfoldable pub is_owner : Text → Row → Bool
unfolding text_eq lower field_is
is_owner index row =
    leb 9 (length row)
    && (elim (get_elem? row 3) [ none ↦ false | some t ↦ text_eq (lower t) (codes "88a4") ])
    && field_is 4 index row

-- `packet_owners(nic)`, from the rows below the heading
unfoldable pub packet_owners : Text → List Row → List Text
unfolding is_owner last_field text_member
packet_owners index [] = []
packet_owners index (row ∷ rows) =
    let owners = packet_owners index rows in
    if is_owner index row
    then (elim (last_field row) [
      | none ↦ owners
      | some s ↦ if text_member s owners then owners else s ∷ owners
    ])
    else owners

-- `int(s, 16) & 1`: the last digit decides. A text that is no number is a `ValueError`.
unfoldable pub is_odd_hex : Text → Result Bool
unfolding hex_value
is_odd_hex [] = err value_error
is_odd_hex (c ∷ []) = if ltb (hex_value c) 16 then ok (hex_value c % 2 == 1) else err value_error
is_odd_hex (c ∷ d ∷ s) = if ltb (hex_value c) 16 then is_odd_hex (d ∷ s) else err value_error

unfoldable pub route_flag : Option Text → Result Bool
unfolding is_odd_hex
route_flag none = err other
route_flag (some s) = is_odd_hex s

-- The loop over /proc/net/route.
unfoldable pub check_routes : Text → List Row → Result (Unit {0})
unfolding field_is route_flag require
check_routes nic [] = ok tt
check_routes nic (row ∷ rows) =
    let rest = check_routes nic rows in
    if field_is 0 nic row && field_is 1 (codes "00000000") row
    then then_do (route_flag (get_elem? row 3)) (λ up. then_do (require (not up)) (λ _. rest))
    else rest

unfoldable pub is_ipv6_default : Text → Row → Bool
unfolding last_field text_eq field_is
is_ipv6_default nic row =
    (elim (last_field row) [ none ↦ false | some s ↦ text_eq s nic ])
    && field_is 0 (codes "00000000000000000000000000000000") row
    && field_is 1 (codes "00") row

-- The loop over /proc/net/ipv6_route.
unfoldable pub check_ipv6_routes : Text → List Row → Result (Unit {0})
unfolding is_ipv6_default
check_ipv6_routes nic [] = ok tt
check_ipv6_routes nic (row ∷ rows) =
    if is_ipv6_default nic row then err value_error else check_ipv6_routes nic rows

-- What `check_nic` reads of the system.
pub record Network : Type 0 where
  pub exists : Bool
  pub routes : List Row
  pub ipv6_routes : Option (List Row)
  pub carrier : Text
  pub interface_index : Text
  pub packets : List Row

unfoldable pub check_optional_routes : Text → Option (List Row) → Result (Unit {0})
unfolding check_ipv6_routes
check_optional_routes nic none = ok tt
check_optional_routes nic (some rows) = check_ipv6_routes nic rows

-- `check_nic(nic)`
unfoldable pub check_nic : Text → Network → Result (Unit {0})
unfolding require text_eq check_routes check_optional_routes strip packet_owners
check_nic nic net = then_do (require (net.exists && not (text_eq nic (codes "lo")))) (λ _.
    then_do (check_routes nic net.routes) (λ _.
      then_do (check_optional_routes nic net.ipv6_routes) (λ _.
        then_do (require (text_eq (strip net.carrier) (codes "1")))
          (λ _. require (length (packet_owners (strip net.interface_index) net.packets) == 0)))))

-- What `healthcheck` finds in the status file: the event, the time, and for each process whether it can
-- be signalled.
pub record Status : Type 0 where
  pub is_ready : Bool
  pub time : ℕ
  pub reachable : List Bool

unfoldable pub all_reachable : List Bool → Bool
all_reachable [] = true
all_reachable (b ∷ bs) = b && all_reachable bs

-- `healthcheck()`; `none` is a file that is missing or not of this form.
unfoldable pub healthcheck : ℕ → Option Status → ℕ
unfolding all_reachable
healthcheck now none = 1
healthcheck now (some s) =
    if not s.is_ready || ltb 10000000000 (now - s.time)
    then 1
    else if all_reachable s.reachable
    then 0
    else 1
