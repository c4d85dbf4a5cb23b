-- ===== src/Copley/Clock.antt =====
-- What leaves the time of the FMU and of the Copley adapter alone, in
-- src/functional_model/cia402_drive/adapter/copley.py.
use ethercat_device_simulato.Prelude.{ℕ, ◌≡◌, ℤ, Bool, not, ◌&&◌, none, some, List, [], ◌∷◌}
use ethercat_device_simulato.Exec.{
  Error, runtime_error, Result, Exec, lift, check, Keeps, bind-Keeps, check-Keeps, when-Keeps,
  catching-Keeps, on_part, ◌>>=◌,
}
use ethercat_device_simulato.Text.{Text}
use ethercat_device_simulato.Value.{Value, int}
use ethercat_device_simulato.Numbers.{Numbers}
use ethercat_device_simulato.Fmi.{
  Native, Runner, Input, set, get, check_usable, latched, require_variable, variable,
}
use ethercat_device_simulato.Copley.{Copley, on_runner, validate, read_value, get_named, set_named}
use ethercat_device_simulato.Copley.Cycle.{
  validate_object, controlword, check_fault, check_objects, step_inputs, set_all, publish,
  publish_named, with_referenced, refresh,
}

module _ {F N : Type 0} where
  abbrev pub At : Value F → Runner F N → Type 0
  At t r = r.time ≡ t

module _ {F N : Type 0} where
  -- The FMU's time and the time that is left over.
  abbrev pub Clock : Value F → Value F → Copley F N → Type 0
  Clock time left s = (s.runner.time ≡ time) × (s.remainder ≡ left)

  -- What leaves the clock alone, whether it returns or raises.
  abbrev pub Still : {X : Type 0} → Exec (Copley F N) X → Type 0
  Still m = (a b : Value F) → Keeps (Clock a b) m

module _ {F N : Type 0} (finite : F → Bool) (native : Native F N) (nums : Numbers (Value F))
    (round : Value F → Result ℤ) where
  check_usable-Keeps : (t : Value F) → Keeps (At {F = F} {N = N} t) (check_usable finite native)
  unfolding check_usable ◌>>=◌
  check_usable-Keeps t r h =
      check-Keeps (At {F = F} {N = N} t) (r.initialized && not r.failed) runtime_error r h

  require_variable-Keeps :
      (t : Value F) (name : Text)
      → Keeps (At {F = F} {N = N} t) (λ r. require_variable (variable name r.variables) r)
  unfolding require_variable
  require_variable-Keeps t name r h =
      elim (variable name r.variables) as (λ v. At {F = F} {N = N} t (require_variable v r).1) [
        | none ↦ h
        | some v ↦ h
      ]

  latched-Keeps :
      {X : Type 0} (t : Value F) (m : Exec N X)
      → Keeps (At {F = F} {N = N} t) (
          latched finite native
            (on_part (λ (r : Runner F N). r.native) (λ n r. record r { native = n }) m))
  unfolding latched ◌>>=◌
  latched-Keeps t m = catching-Keeps (At {F = F} {N = N} t) _ _ (λ r h. h) (λ e r h. h)

  set-Keeps :
      (t : Value F) (name : Text) (value : Input F)
      → Keeps (At {F = F} {N = N} t) (set finite native name value)
  unfolding set
  set-Keeps t name value = bind-Keeps (At {F = F} {N = N} t) _ _ (check_usable-Keeps t) (λ _.
      bind-Keeps (At {F = F} {N = N} t) _ _ (require_variable-Keeps t name) (λ v.
        bind-Keeps (At {F = F} {N = N} t) _ _ (check-Keeps (At {F = F} {N = N} t) _ _) (λ _.
          bind-Keeps (At {F = F} {N = N} t) _ _ (check-Keeps (At {F = F} {N = N} t) _ _) (λ _.
            bind-Keeps (At {F = F} {N = N} t) _ _ (check-Keeps (At {F = F} {N = N} t) _ _) (λ _.
              bind-Keeps (At {F = F} {N = N} t) _ _ (check-Keeps (At {F = F} {N = N} t) _ _)
                (λ _. latched-Keeps t (native.set v.reference value)))))))

  get-Keeps : (t : Value F) (name : Text) → Keeps (At {F = F} {N = N} t) (get finite native name)
  unfolding get
  get-Keeps t name = bind-Keeps (At {F = F} {N = N} t) _ _ (check_usable-Keeps t) (λ _.
      bind-Keeps (At {F = F} {N = N} t) _ _ (require_variable-Keeps t name)
        (λ v. latched-Keeps t (native.get v.reference)))

  on_runner-Keeps :
      {X : Type 0} (a b : Value F) (m : Exec (Runner F N) X)
      → Keeps (At {F = F} {N = N} a) m
      → Keeps (Clock {F = F} {N = N} a b) (on_runner m)
  on_runner-Keeps a b m hm s h = (hm s.runner h.0, h.1)

  pub bind-Still :
      {X Y : Type 0} (m : Exec (Copley F N) X) (f : X → Exec (Copley F N) Y)
      → Still m
      → ((x : X) → Still {F = F} {N = N} (f x))
      → Still {F = F} {N = N} (m >>= f)
  bind-Still m f hm hf a b = bind-Keeps (Clock {F = F} {N = N} a b) m f (hm a b) (λ x. hf x a b)

  pub check-Still : (b : Bool) (e : Error) → Still {F = F} {N = N} (check b e)
  check-Still c e a b = check-Keeps (Clock {F = F} {N = N} a b) c e

  pub lift-Still : {X : Type 0} (r : Result X) → Still {F = F} {N = N} (lift r)
  lift-Still r a b s h = h

  pub read_value-Still : (index : ℕ) → Still {F = F} {N = N} (read_value index)
  unfolding read_value
  read_value-Still index a b s h = h

  pub validate-Still : (index : ℕ) (v : Value F) → Still {F = F} {N = N} (validate nums index v)
  unfolding validate
  validate-Still index v = bind-Still _ _ (check-Still _ _) (λ _. check-Still _ _)

  pub validate_object-Still :
      (index : ℕ) → Still {F = F} {N = N} (validate_object finite native nums round index)
  unfolding validate_object
  validate_object-Still index =
      bind-Still _ _ (read_value-Still index) (λ v. validate-Still index v)

  pub controlword-Still : Still {F = F} {N = N} (controlword finite native nums round)
  unfolding controlword
  controlword-Still = bind-Still _ _ (read_value-Still 0x6040) (λ v. lift-Still (nums.to_index v))

  pub check_fault-Still : Still {F = F} {N = N} (check_fault finite native nums round)
  unfolding check_fault
  check_fault-Still a b s h =
      when-Keeps (Clock {F = F} {N = N} a b) s.fault _
        (bind-Still _ _ controlword-Still (λ w. check-Still _ _) a b) s h

  pub check_objects-Still : Still {F = F} {N = N} (check_objects finite native nums round)
  unfolding check_objects
  check_objects-Still = bind-Still _ _ (read_value-Still 0x6083) (λ acceleration.
      bind-Still _ _ (read_value-Still 0x6084) (λ deceleration.
        bind-Still _ _ (check-Still _ _) (λ _. bind-Still _ _ (validate_object-Still 0x6040) (λ _.
          bind-Still _ _ (validate_object-Still 0x6060) (λ _.
            bind-Still _ _ (validate_object-Still 0x6081) (λ _.
              bind-Still _ _ (validate_object-Still 0x6083)
                (λ _. bind-Still _ _ (validate_object-Still 0x6084) (λ _ a b s h. h))))))))

  pub step_inputs-Still :
      (v : Value F) → Still {F = F} {N = N} (step_inputs finite native nums round v)
  unfolding step_inputs
  step_inputs-Still v = bind-Still _ _ controlword-Still (λ word.
      bind-Still _ _ (read_value-Still 0x6060) (λ mode.
        bind-Still _ _ (read_value-Still 0x607a)
          (λ target. bind-Still _ _ (read_value-Still 0x6081) (λ velocity a b s h. h))))

  pub set_all-Still :
      (values : List (Text × Input F))
      → Still {F = F} {N = N} (set_all finite native nums round values)
  unfolding set_all set_named
  set_all-Still [] a b = λ s h. h
  set_all-Still ((name, value) ∷ rest) a b =
      bind-Keeps (Clock {F = F} {N = N} a b) _ _
        (on_runner-Keeps a b (set finite native name value) (set-Keeps a name value))
        (λ _. set_all-Still rest a b)

  pub get_named-Still : (name : Text) → Still {F = F} {N = N} (get_named finite native name)
  unfolding get_named
  get_named-Still name a b = on_runner-Keeps a b (get finite native name) (get-Keeps a name)

  pub publish-Still :
      (index : ℕ) (v : Value F) → Still {F = F} {N = N} (publish finite native nums round index v)
  unfolding publish
  publish-Still index v a b s h = h

  pub publish_named-Still :
      (index : ℕ) (name : Text)
      → Still {F = F} {N = N} (publish_named finite native nums round index name)
  unfolding publish_named
  publish_named-Still index name =
      bind-Still _ _ (get_named-Still name) (λ v. publish-Still index v)

  pub refresh-Still : Still {F = F} {N = N} (refresh finite native nums round)
  unfolding refresh
  refresh-Still = bind-Still _ _ (get_named-Still _) (λ status.
      bind-Still _ _ (λ a b s h. h)
        (λ word.
          bind-Still _ _
            (publish-Still 0x6041 (int (with_referenced finite native nums round word)))
            (λ _. bind-Still _ _ (publish_named-Still 0x6061 _) (λ _.
              bind-Still _ _ (publish_named-Still 0x6064 _) (λ _.
                bind-Still _ _ (publish_named-Still 0x6077 _) (λ _.
                  bind-Still _ _ (get_named-Still _) (λ velocity.
                    bind-Still _ _ (λ a b s h. h)
                      (λ factor.
                        bind-Still _ _ (λ a b s h. h)
                          (λ scaled.
                            bind-Still _ _ (λ a b s h. h)
                              (λ rounded. publish-Still 0x606c (int rounded)))))))))))
