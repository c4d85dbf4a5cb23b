-- ===== src/Fmi/Latch.antt =====
-- Calls of a runner that failed: `Fmi3Runner` of src/functional_model/runtime/fmi/runner.py.
use ethercat_device_simulato.Prelude.{
  ◌≡◌, ◌⊎◌, inl, inr, refl, arith, Bool, true, false, not, ◌&&◌, Option, none, some, List, [], ◌∷◌,
  if◌then◌else◌,
}
use ethercat_device_simulato.Exec.{
  Error, Result, ok, err, Exec, ◌>>=◌, pure, check, go_on, runtime_error,
}
use ethercat_device_simulato.Text.{Text}
use ethercat_device_simulato.Value.{Value}
use ethercat_device_simulato.Numbers.{Numbers}
use ethercat_device_simulato.Fmi.{
  Input, Native, Runner, Variable, check_usable, latched, set, get, step, close, release, finally,
  variable, require_variable,
}

-- A call by the adapter.
pub data Call (F : Type 0) : Type 0 where
  set_call : Text → Input F → Call F
  get_call : Text → Call F
  step_call : Value F → Call F

abbrev pub is_error : {A : Type 0} → Result A → Bool
is_error (ok a) = false
is_error (err e) = true

module _ {F N : Type 0} (finite : F → Bool) (native : Native F N) (nums : Numbers (Value F)) where
  unfoldable pub call : Call F → Exec (Runner F N) (Unit {0})
  call (set_call name value) = set finite native name value
  call (get_call name) = do value ← get finite native name; pure tt
  call (step_call dt) = step finite native nums dt

  -- One call after the other, also after one that raised.
  unfoldable pub call_all : List (Call F) → Runner F N → Runner F N
  unfolding call
  call_all [] r = r
  call_all (c ∷ cs) r = call_all cs (call c r).1

  failed_call : (c : Call F) (r : Runner F N) → r.failed ≡ true → (call c r).1 ≡ r
  unfolding call set get step check_usable ◌>>=◌
  failed_call (set_call name value) r h = ground arith
  failed_call (get_call name) r h = ground arith
  failed_call (step_call dt) r h = ground arith

  failed_calls : (cs : List (Call F)) (r : Runner F N) → r.failed ≡ true → call_all cs r ≡ r
  unfolding call_all
  failed_calls [] r h = refl
  failed_calls (c ∷ cs) r h = rw (failed_call c r h) (failed_calls cs r h)

  -- An action that raises leaves the runner as it is, or failed.
  abbrev Clean : {X : Type 0} → Exec (Runner F N) X → Type 0
  Clean m = (r : Runner F N) → is_error (m r).0 ≡ true → ((m r).1 ≡ r) ⊎ ((m r).1.failed ≡ true)

  abbrev Unchanged : {X : Type 0} → Exec (Runner F N) X → Type 0
  Unchanged m = (r : Runner F N) → (m r).1 ≡ r

  then-Clean :
      {X Y : Type 0} (f : X → Exec (Runner F N) Y)
      → ((x : X) → Clean (f x))
      → (result : Result X) (r : Runner F N) → is_error (go_on result f r).0 ≡ true
      → ((go_on result f r).1 ≡ r) ⊎ ((go_on result f r).1.failed ≡ true)
  then-Clean f hf (ok x) r h = hf x r h
  then-Clean f hf (err e) r h = inl refl

  bind-Clean :
      {X Y : Type 0} (m : Exec (Runner F N) X) (f : X → Exec (Runner F N) Y)
      → Unchanged m
      → ((x : X) → Clean (f x))
      → Clean (m >>= f)
  unfolding ◌>>=◌
  bind-Clean m f hm hf r = rw (hm r) (then-Clean f hf (m r).0 r)

  check-Unchanged : (b : Bool) (e : Error) → Unchanged (check b e)
  check-Unchanged true e r = refl
  check-Unchanged false e r = refl

  check_usable-Unchanged : Unchanged (check_usable finite native)
  unfolding check_usable ◌>>=◌
  check_usable-Unchanged r = check-Unchanged (r.initialized && not r.failed) runtime_error r

  require_variable-Unchanged : (v : Option Variable) → Unchanged (require_variable v)
  unfolding require_variable
  require_variable-Unchanged none r = refl
  require_variable-Unchanged (some v) r = refl

  caught-failed :
      {X : Type 0} (result : Result X) (r : Runner F N)
      → is_error (latched finite native (λ _. (result, r)) r).0 ≡ true
      → (latched finite native (λ _. (result, r)) r).1.failed ≡ true
  unfolding latched ◌>>=◌
  caught-failed (ok x) r h = ground arith
  caught-failed (err e) r h = refl

  latched-Clean : {X : Type 0} (m : Exec (Runner F N) X) → Clean (latched finite native m)
  unfolding latched ◌>>=◌
  latched-Clean m r h = inr (caught-failed (m r).0 (m r).1 h)

  set-Clean : (name : Text) (value : Input F) → Clean (set finite native name value)
  unfolding set
  set-Clean name value = bind-Clean _ _ check_usable-Unchanged (λ _.
      bind-Clean _ _ (λ r. require_variable-Unchanged (variable name r.variables) r)
        (λ v. bind-Clean _ _ (check-Unchanged _ _) (λ _. bind-Clean _ _ (check-Unchanged _ _) (λ _.
          bind-Clean _ _ (check-Unchanged _ _)
            (λ _. bind-Clean _ _ (check-Unchanged _ _) (λ _. latched-Clean _))))))

  get-Clean : (name : Text) → Clean (get finite native name)
  unfolding get
  get-Clean name = bind-Clean _ _ check_usable-Unchanged (λ _.
      bind-Clean _ _ (λ r. require_variable-Unchanged (variable name r.variables) r)
        (λ v. latched-Clean _))

  step-Clean : (dt : Value F) → Clean (step finite native nums dt)
  unfolding step
  step-Clean dt =
      bind-Clean _ _ check_usable-Unchanged
        (λ _. bind-Clean _ _ (check-Unchanged _ _) (λ _. latched-Clean _))

  dropped-Clean :
      {X : Type 0} (result : Result X) (r s : Runner F N)
      → (is_error result ≡ true → (r ≡ s) ⊎ (r.failed ≡ true))
      → is_error (go_on result (λ _. pure tt) r).0 ≡ true
      → ((go_on result (λ _. pure tt) r).1 ≡ s) ⊎ ((go_on result (λ _. pure tt) r).1.failed ≡ true)
  dropped-Clean (ok x) r s h e = ground arith
  dropped-Clean (err x) r s h e = h refl

  call-Clean : (c : Call F) → Clean (call c)
  unfolding call ◌>>=◌
  call-Clean (set_call name value) r = set-Clean name value r
  call-Clean (get_call name) r =
      dropped-Clean (get finite native name r).0 (get finite native name r).1 r (get-Clean name r)
  call-Clean (step_call dt) r = step-Clean dt r

  -- A call that raises changed nothing, or no later call changes anything: the runner and the native FMU stay as they are.
  pub call-latches :
      (c : Call F) (cs : List (Call F)) (r : Runner F N)
      → is_error (call c r).0 ≡ true
      → ((call c r).1 ≡ r) ⊎ (call_all cs (call c r).1 ≡ (call c r).1)
  call-latches c cs r h = elim (call-Clean c r h) [
    | inl same ↦ inl same
    | inr failed ↦ inr (failed_calls cs (call c r).1 failed)
  ]

  -- `close` of a failed runner frees the native instance, where there is one, without `terminate`.
  pub close-failed :
      (r : Runner F N)
      → r.failed ≡ true
      → r.fmu ≡ true
      → (close finite native r).1.native
        ≡ (if native.has_component r.native then (native.free r.native).1 else r.native)
  unfolding close release finally
  close-failed r h f = ground arith
