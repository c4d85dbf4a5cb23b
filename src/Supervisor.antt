-- ===== src/Supervisor.antt =====
-- The container supervisor of the two processes: `main`, `settings`, `healthcheck` and `stop_process` of
-- docker/service.py. What it sees of the system at each round of a loop is a list of observations; times
-- are in nanoseconds.
pub mod Settings
pub mod Loops
pub mod Cleanup
mod Tests
use ethercat_device_simulato.Prelude.{
  ℕ, zero, suc, ◌+◌, ◌-◌, Bool, true, false, not, ◌&&◌, ◌||◌, Option, none, some, List, [], ◌∷◌,
  ◌++◌, if◌then◌else◌, ltb, leb, ◌==◌,
}

-- What one round of a loop observes: a signal that came in before it, the exit codes (`poll()`), the
-- model's socket, whether the NIC has a packet owner, and the clock.
pub record Observation : Type 0 where
  pub signal : Bool
  pub model_code : Option ℕ
  pub slave_code : Option ℕ
  pub socket : Bool
  pub owned : Bool
  pub now : ℕ

-- The events of `write_status`
pub data Event : Type 0 where
  validated ready model_failed failed stopped : Event

-- The two children.
pub data Process : Type 0 where
  model_process slave_process : Process

pub data Action : Type 0 where
  spawn_model spawn_slave : Action
  terminate kill : Process → Action  -- SIGTERM and SIGKILL
  report : Event → Action
  unlink_socket release_lock : Action

-- How a loop ends: it goes on after the last observation, it is left, it returns from `main`, or it raises.
pub data Exit : Type 0 where
  still_running left returned raised : Exit

-- The state that goes from loop to loop: `stopping` and the observations that are left.
pub record Round : Type 0 where
  pub actions : List Action
  pub exit : Exit
  pub stopping : Bool
  pub rest : List Observation

unfoldable pub exited : Option ℕ → Bool
exited none = false
exited (some code) = true

unfoldable pub is_success : Option ℕ → Bool
is_success none = false
is_success (some code) = code == 0

unfoldable pub ended : List Action → Exit → Bool → List Observation → Round
ended actions exit stopping rest = record {
  actions = actions;
  exit = exit;
  stopping = stopping;
  rest = rest;
}

unfoldable pub preceded : List Action → Round → Round
preceded actions r = record r { actions = actions ++ r.actions }

-- The loop that waits for the model.
unfoldable pub await_model : Bool → ℕ → Bool → List Observation → Round
unfolding exited is_success ended
await_model validate_only deadline stopping [] = ended [] still_running stopping []
await_model validate_only deadline stopping (o ∷ os) =
    let stopping' = stopping || o.signal in
    let next = await_model validate_only deadline stopping' os in
    if stopping'
    then ended [] left true (o ∷ os)
    else if validate_only && exited o.model_code
    then (if is_success o.model_code
        then ended (report validated ∷ []) returned stopping' os
        else ended [] raised stopping' os)
    else if exited o.model_code
    then ended [] raised stopping' os
    else if not validate_only && o.socket
    then ended [] left stopping' os
    else if ltb deadline o.now
    then ended [] raised stopping' os
    else next

-- The loop that waits for the slave.
unfoldable pub await_slave : ℕ → Bool → List Observation → Round
unfolding exited ended
await_slave deadline stopping [] = ended [] still_running stopping []
await_slave deadline stopping (o ∷ os) =
    let stopping' = stopping || o.signal in
    let next = await_slave deadline stopping' os in
    if stopping' || o.owned
    then ended [] left stopping' (o ∷ os)
    else if exited o.model_code || exited o.slave_code
    then ended [] raised stopping' os
    else if ltb deadline o.now
    then ended [] raised stopping' os
    else next

-- The status that a round of the last loop writes; `failed_before` says that the last status was `model-failed`.
unfoldable pub round_report : Bool → Option ℕ → List Action
round_report failed_before none = report ready ∷ []
round_report false (some code) = report model_failed ∷ []
round_report true (some code) = []

-- `timeout and time.monotonic() - started >= timeout`
unfoldable pub is_timeout : ℕ → ℕ → ℕ → Bool
is_timeout timeout started now = not (timeout == 0) && leb timeout (now - started)

-- The last loop.
unfoldable pub supervise : ℕ → ℕ → Bool → Bool → List Observation → Round
unfolding exited ended preceded round_report is_timeout
supervise timeout started failed_before stopping [] = ended [] still_running stopping []
supervise timeout started failed_before stopping (o ∷ os) =
    let stopping' = stopping || o.signal in
    let next = supervise timeout started (exited o.model_code) stopping' os in
    if stopping'
    then ended [] left true os
    else if exited o.slave_code
    then ended [] raised stopping' os
    else preceded (round_report failed_before o.model_code)
        (if is_timeout timeout started o.now then ended [] raised stopping' os else next)

-- How a child takes the signals of `stop_process`: whether it is alive when `main` comes to stop it, and
-- whether it exits within three seconds of SIGTERM and of SIGKILL.
pub record Child : Type 0 where
  pub alive : Bool
  pub on_terminate : Bool
  pub on_kill : Bool

-- `stop_process(process)`: the signals that it sends, and whether it returns. The second `wait` raises
-- where the process outlives SIGKILL by three seconds.
unfoldable pub stop_process : Process → Child → List Action × Bool
stop_process p c =
    if not c.alive
    then ([], true)
    else if c.on_terminate
    then (terminate p ∷ [], true)
    else (terminate p ∷ kill p ∷ [], c.on_kill)

-- What `main` starts with: its flag, whether all went well up to the start of the model and whether the
-- lock is held then, the timeout, whether the status file still says `model-failed`, and the times at
-- which the model, the slave and the last loop start.
pub record Start : Type 0 where
  pub validate_only : Bool
  pub prepared : Bool
  pub locked : Bool
  pub timeout : ℕ
  pub stale : Bool
  pub model_at : ℕ
  pub slave_at : ℕ
  pub loop_at : ℕ

-- The body of `try`: its actions, its end, and whether the model and the slave were started.
pub record Body : Type 0 where
  pub actions : List Action
  pub exit : Exit
  pub has_model : Bool
  pub has_slave : Bool

unfoldable pub body_of : List Action → Exit → Bool → Bool → Body
body_of actions exit model slave = record {
  actions = actions;
  exit = exit;
  has_model = model;
  has_slave = slave;
}

-- `left` of the last loop is the return at the end.
unfoldable pub last_exit : Exit → Exit
last_exit left = returned
last_exit e = e

-- From the end of the slave's startup on; `before` is what was done until then.
unfoldable pub run_loop : Start → List Action → Round → Exit → Body
unfolding supervise body_of last_exit
run_loop s before r left =
    let c = supervise s.timeout s.loop_at s.stale r.stopping r.rest in
    body_of (before ++ r.actions ++ c.actions) (last_exit c.exit) true true
run_loop s before r e = body_of (before ++ r.actions) e true true

-- From the end of the model's startup on.
unfoldable pub run_slave : Start → Round → Exit → Body
unfolding await_slave run_loop body_of
run_slave s r left =
    let slave = await_slave (s.slave_at + 10000000000) false r.rest in
    if r.stopping
    then body_of (spawn_model ∷ r.actions) returned true false
    else run_loop s (spawn_model ∷ r.actions ++ spawn_slave ∷ []) slave slave.exit
run_slave s r e = body_of (spawn_model ∷ r.actions) e true false

unfoldable pub body : Start → List Observation → Body
unfolding await_model run_slave body_of
body s os =
    let model = await_model s.validate_only (s.model_at + 20000000000) false os in
    if s.prepared then run_slave s model model.exit else body_of [] raised false false

-- How `main` ends: not yet, with an exit code, or with an exception of the `finally` clause.
pub data Outcome : Type 0 where
  running : Outcome
  exit_code : ℕ → Outcome
  aborted : Outcome

pub record Run : Type 0 where
  pub actions : List Action
  pub outcome : Outcome

unfoldable pub optional : Bool → Action → List Action
optional true a = a ∷ []
optional false a = []

-- The end of the `finally` clause.
unfoldable pub closing : Start → ℕ → List Action
unfolding optional
closing s result =
    unlink_socket ∷ optional s.locked release_lock
    ++ optional (not s.validate_only || not (result == 0))
        (report (if result == 0 then stopped else failed))

-- The actions of the body and of the `except` clause.
unfoldable pub reported : Body → ℕ → List Action
unfolding optional
reported b result = b.actions ++ optional (not (result == 0)) (report failed)

-- The stop of a process that was started.
unfoldable pub stop_started : Bool → Process → Child → List Action × Bool
unfolding stop_process
stop_started false p c = ([], true)
stop_started true p c = stop_process p c

-- The `finally` clause with the `except` clause before it. The slave is stopped first; an exception of
-- its stop leaves the model running.
unfoldable pub finish : Start → Child → Child → ℕ → Body → Run
unfolding reported closing stop_started
finish s model slave result b =
    let first = stop_started b.has_slave slave_process slave in
    let second = stop_started b.has_model model_process model in
    if not first.1
    then record { actions = reported b result ++ first.0; outcome = aborted }
    else if not second.1
    then record { actions = reported b result ++ first.0 ++ second.0; outcome = aborted }
    else record {
      actions = reported b result ++ (first.0 ++ (second.0 ++ closing s result));
      outcome = exit_code result;
    }

unfoldable pub ending : Start → Child → Child → Body → Exit → Run
unfolding finish
ending s model slave b still_running = record { actions = b.actions; outcome = running }
ending s model slave b raised = finish s model slave 1 b
ending s model slave b e = finish s model slave 0 b

-- `main()` without `--healthcheck`
unfoldable pub main : Start → Child → Child → List Observation → Run
unfolding body ending
main s model slave os = let b = body s os in ending s model slave b b.exit
