-- ===== src/Supervisor/Cleanup.antt =====
-- The processes that `main` of docker/service.py leaves behind.
use ethercat_device_simulato.Prelude.{
  ℕ, ◌+◌, ◌≡◌, refl, ◌∙◌, arith, Bool, true, false, not, ◌&&◌, ◌||◌, List, [], ◌∷◌, ◌++◌, ◌==◌,
}
use ethercat_device_simulato.Exec.{if-holds}
use ethercat_device_simulato.Supervisor.{
  Observation, Event, failed, Action, spawn_model, spawn_slave, terminate, kill, report,
  model_process, slave_process, unlink_socket, release_lock, Exit, still_running, left, returned,
  raised, Round, Start, Body, Child, exit_code, await_model, await_slave, body_of, run_loop,
  run_slave, body, optional, closing, reported, stop_started, stop_process, finish, ending, main,
}

-- The processes that run after some actions, the model and the slave: one that was started and is alive
-- when it is to be stopped runs until a signal that it exits on.
unfoldable pub running_after : Child → Child → Bool × Bool → List Action → Bool × Bool
running_after model slave p [] = p
running_after model slave (m, s) (spawn_model ∷ as') =
    running_after model slave (model.alive, s) as'
running_after model slave (m, s) (spawn_slave ∷ as') =
    running_after model slave (m, slave.alive) as'
running_after model slave (m, s) (terminate model_process ∷ as') =
    running_after model slave (m && not model.on_terminate, s) as'
running_after model slave (m, s) (terminate slave_process ∷ as') =
    running_after model slave (m, s && not slave.on_terminate) as'
running_after model slave (m, s) (kill model_process ∷ as') =
    running_after model slave (m && not model.on_kill, s) as'
running_after model slave (m, s) (kill slave_process ∷ as') =
    running_after model slave (m, s && not slave.on_kill) as'
running_after model slave (m, s) (report e ∷ as') = running_after model slave (m, s) as'
running_after model slave (m, s) (unlink_socket ∷ as') = running_after model slave (m, s) as'
running_after model slave (m, s) (release_lock ∷ as') = running_after model slave (m, s) as'

abbrev neither : Bool × Bool
neither = (false, false)

module _ (model slave : Child) where
  abbrev after : Bool × Bool → List Action → Bool × Bool
  after = running_after model slave

  running_after-append :
      (p : Bool × Bool) (xs ys : List Action) → after p (xs ++ ys) ≡ after (after p xs) ys
  unfolding running_after
  running_after-append p [] ys = refl
  running_after-append (m, s) (spawn_model ∷ xs) ys = running_after-append (model.alive, s) xs ys
  running_after-append (m, s) (spawn_slave ∷ xs) ys = running_after-append (m, slave.alive) xs ys
  running_after-append (m, s) (terminate model_process ∷ xs) ys =
      running_after-append (m && not model.on_terminate, s) xs ys
  running_after-append (m, s) (terminate slave_process ∷ xs) ys =
      running_after-append (m, s && not slave.on_terminate) xs ys
  running_after-append (m, s) (kill model_process ∷ xs) ys =
      running_after-append (m && not model.on_kill, s) xs ys
  running_after-append (m, s) (kill slave_process ∷ xs) ys =
      running_after-append (m, s && not slave.on_kill) xs ys
  running_after-append (m, s) (report e ∷ xs) ys = running_after-append (m, s) xs ys
  running_after-append (m, s) (unlink_socket ∷ xs) ys = running_after-append (m, s) xs ys
  running_after-append (m, s) (release_lock ∷ xs) ys = running_after-append (m, s) xs ys

  await_model-running :
      (validate_only : Bool) (deadline : ℕ) (stopping : Bool) (os : List Observation)
      (p : Bool × Bool)
      → after p (await_model validate_only deadline stopping os).actions ≡ p
  unfolding running_after await_model
  await_model-running validate_only deadline stopping [] p = refl
  await_model-running validate_only deadline stopping (o ∷ os) p =
      ground (arith, await_model-running validate_only deadline (stopping || o.signal) os p)

  -- Each process that may run after the body of `try` is alive and is one that the `finally` clause stops.
  is_covered : Body → Bool
  unfolding running_after
  is_covered b =
      let p = after neither b.actions in
      (not p.0 || (b.has_model && model.alive)) && (not p.1 || (b.has_slave && slave.alive))

  -- A process that runs is alive when it is to be stopped.
  is_bounded : Bool × Bool → Bool
  is_bounded p = (not p.0 || model.alive) && (not p.1 || slave.alive)

  running_after-bounded :
      (p : Bool × Bool) (as' : List Action) → is_bounded p ≡ true → is_bounded (after p as') ≡ true
  unfolding running_after is_bounded
  running_after-bounded p [] h = h
  running_after-bounded (m, s) (spawn_model ∷ xs) h =
      running_after-bounded (model.alive, s) xs (ground arith)
  running_after-bounded (m, s) (spawn_slave ∷ xs) h =
      running_after-bounded (m, slave.alive) xs (ground arith)
  running_after-bounded (m, s) (terminate model_process ∷ xs) h =
      running_after-bounded (m && not model.on_terminate, s) xs (ground arith)
  running_after-bounded (m, s) (terminate slave_process ∷ xs) h =
      running_after-bounded (m, s && not slave.on_terminate) xs (ground arith)
  running_after-bounded (m, s) (kill model_process ∷ xs) h =
      running_after-bounded (m && not model.on_kill, s) xs (ground arith)
  running_after-bounded (m, s) (kill slave_process ∷ xs) h =
      running_after-bounded (m, s && not slave.on_kill) xs (ground arith)
  running_after-bounded (m, s) (report e ∷ xs) h = running_after-bounded (m, s) xs h
  running_after-bounded (m, s) (unlink_socket ∷ xs) h = running_after-bounded (m, s) xs h
  running_after-bounded (m, s) (release_lock ∷ xs) h = running_after-bounded (m, s) xs h

  covered_both :
      (actions : List Action) (e : Exit) → is_covered (body_of actions e true true) ≡ true
  unfolding is_covered is_bounded body_of
  covered_both actions e = running_after-bounded neither actions refl

  run_loop-covered :
      (s : Start) (before : List Action) (r : Round) (e : Exit)
      → is_covered (run_loop s before r e) ≡ true
  unfolding run_loop
  run_loop-covered s before r left = covered_both _ _
  run_loop-covered s before r still_running = covered_both _ _
  run_loop-covered s before r returned = covered_both _ _
  run_loop-covered s before r raised = covered_both _ _

  covered_model :
      (actions : List Action) (e : Exit)
      → ((p : Bool × Bool) → after p actions ≡ p)
      → is_covered (body_of (spawn_model ∷ actions) e true false) ≡ true
  unfolding is_covered body_of running_after
  covered_model actions e h = rw (h (model.alive, false)) (ground arith)

  run_slave-covered :
      (s : Start) (r : Round) (e : Exit)
      → ((p : Bool × Bool) → after p r.actions ≡ p)
      → is_covered (run_slave s r e) ≡ true
  unfolding run_slave
  run_slave-covered s r left h =
      let slave' = await_slave (s.slave_at + 10000000000) false r.rest in
      if-holds (λ b. is_covered b ≡ true) r.stopping
        (body_of (spawn_model ∷ r.actions) returned true false)
        (run_loop s (spawn_model ∷ r.actions ++ spawn_slave ∷ []) slave' slave'.exit)
        (covered_model r.actions returned h)
        (run_loop-covered s (spawn_model ∷ r.actions ++ spawn_slave ∷ []) slave' slave'.exit)
  run_slave-covered s r still_running h = covered_model r.actions still_running h
  run_slave-covered s r returned h = covered_model r.actions returned h
  run_slave-covered s r raised h = covered_model r.actions raised h

  body-covered : (s : Start) (os : List Observation) → is_covered (body s os) ≡ true
  unfolding body is_covered body_of running_after
  body-covered s os =
      let r = await_model s.validate_only (s.model_at + 20000000000) false os in
      ground (
        arith,
        run_slave-covered s r r.exit
            (await_model-running s.validate_only (s.model_at + 20000000000) false os),
      )

  -- A stop that returns ends its process and leaves the other one alone.
  stop-slave :
      (p : Bool × Bool) (started : Bool)
      → (not p.1 || (started && slave.alive)) ≡ true
      → (stop_started started slave_process slave).1 ≡ true
      → after p (stop_started started slave_process slave).0 ≡ (p.0, false)
  unfolding stop_started stop_process running_after
  stop-slave (m, s) false h r = ground arith
  stop-slave (m, s) true h r = ground arith

  stop-model :
      (m started : Bool)
      → (not m || (started && model.alive)) ≡ true
      → (stop_started started model_process model).1 ≡ true
      → after (m, false) (stop_started started model_process model).0 ≡ neither
  unfolding stop_started stop_process running_after
  stop-model m false h r = ground arith
  stop-model m true h r = ground arith

  reported-running : (p : Bool × Bool) (b : Bool) (e : Event) → after p (optional b (report e)) ≡ p
  unfolding running_after optional
  reported-running (m, s) false e = refl
  reported-running (m, s) true e = refl

  body-running :
      (b : Body) (result : ℕ) → after neither (reported b result) ≡ after neither b.actions
  unfolding reported
  body-running b result =
      running_after-append neither b.actions (optional (not (result == 0)) (report failed))
      ∙ reported-running (after neither b.actions) (not (result == 0)) failed

  closing-running : (s : Start) (result : ℕ) → after neither (closing s result) ≡ neither
  unfolding closing running_after optional
  closing-running s result = ground arith

  -- The actions of a `main` that returns leave no process.
  finished-neither :
      (s : Start) (result : ℕ) (b : Body)
      → is_covered b ≡ true
      → (stop_started b.has_slave slave_process slave).1 ≡ true
      → (stop_started b.has_model model_process model).1 ≡ true
      → after neither (
          reported b result
          ++ ((stop_started b.has_slave slave_process slave).0
              ++ ((stop_started b.has_model model_process model).0 ++ closing s result)))
        ≡ neither
  unfolding is_covered
  finished-neither s result b h first second =
      let p = after neither b.actions in
      let ss = (stop_started b.has_slave slave_process slave).0 in
      let ms = (stop_started b.has_model model_process model).0 in
      rw
        (
          running_after-append neither (reported b result) (ss ++ (ms ++ closing s result)),
          body-running b result,
          running_after-append p ss (ms ++ closing s result),
          stop-slave p b.has_slave (ground (arith, h)) first,
          running_after-append (p.0, false) ms (closing s result),
          stop-model p.0 b.has_model (ground (arith, h)) second,
        )
        (closing-running s result)

  finish-neither :
      (s : Start) (result n : ℕ) (b : Body)
      → is_covered b ≡ true
      → (finish s model slave result b).outcome ≡ exit_code n
      → after neither (finish s model slave result b).actions ≡ neither
  unfolding finish
  finish-neither s result n b h e = ground (arith, finished-neither s result b h)

  ending-neither :
      (s : Start) (b : Body) (e : Exit) (n : ℕ)
      → is_covered b ≡ true
      → (ending s model slave b e).outcome ≡ exit_code n
      → after neither (ending s model slave b e).actions ≡ neither
  unfolding ending
  ending-neither s b still_running n h o = ground arith
  ending-neither s b left n h o = finish-neither s 0 n b h o
  ending-neither s b returned n h o = finish-neither s 0 n b h o
  ending-neither s b raised n h o = finish-neither s 1 n b h o

-- When `main` returns an exit code, no process that it started is left running, where a child exits on
-- SIGTERM or not, and on SIGKILL or not.
pub main-cleanup :
    (s : Start) (model slave : Child) (os : List Observation) (n : ℕ)
    → (main s model slave os).outcome ≡ exit_code n
    → running_after model slave (false, false) (main s model slave os).actions ≡ (false, false)
unfolding main
main-cleanup s model slave os n o =
    let b = body s os in ending-neither model slave s b b.exit n (body-covered model slave s os) o
