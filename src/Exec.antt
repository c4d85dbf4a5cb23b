-- ===== src/Exec.antt =====
-- Python methods that change an object and may raise: what was written before a raise stays written,
-- so the object comes back beside the error too.
use ethercat_device_simulato.Prelude.{◌≡◌, refl, subst, Bool, true, false, if◌then◌else◌}

-- The exception classes that the program tells apart. `DeviceRejectedException` is a `ValueError`,
-- `SdoObjectNotFoundException` a `KeyError`; `other` is any further class (`struct.error`,
-- `OverflowError`, `ZeroDivisionError`, `TypeError`, `IndexError`, …).
pub data Error : Type 0 where
  device_rejected sdo_object_not_found key_error value_error os_error runtime_error other : Error

pub data Result {ℓ} (A : Type ℓ) : Type ℓ where
  ok : A → Result A
  err : Error → Result A

abbrev pub then_do {ℓ} : {A B : Type ℓ} → Result A → (A → Result B) → Result B
then_do (ok a) f = f a
then_do (err e) f = err e

abbrev pub Exec : Type 0 → Type 0 → Type 0
Exec S A = S → Result A × S

module _ {S A : Type 0} where
  abbrev pub pure : A → Exec S A
  pure a s = (ok a, s)

  abbrev pub raise : Error → Exec S A
  raise e s = (err e, s)

  abbrev pub lift : Result A → Exec S A
  lift r s = (r, s)

  abbrev pub gets : (S → A) → Exec S A
  gets f s = (ok (f s), s)

module _ {S : Type 0} where
  abbrev pub modify : (S → S) → Exec S (Unit {0})
  modify f s = (ok tt, f s)

  abbrev pub check : Bool → Error → Exec S (Unit {0})
  check true e s = (ok tt, s)
  check false e s = (err e, s)

module _ {S A : Type 0} where
  -- `try: m` with `except: f`
  abbrev pub catch_with : Result A × S → (Error → Exec S A) → Result A × S
  catch_with (ok a, s) f = (ok a, s)
  catch_with (err e, s) f = f e s

  abbrev pub catching : Exec S A → (Error → Exec S A) → Exec S A
  catching m f s = catch_with (m s) f

module _ {S T A : Type 0} where
  -- An action on a part of the state.
  abbrev pub on_part : (S → T) → (T → S → S) → Exec T A → Exec S A
  on_part get put m s = let (r, t) = m (get s) in (r, put t s)

module _ {S A B : Type 0} where
  abbrev pub go_on : Result A → (A → Exec S B) → Exec S B
  go_on (ok a) f s = f a s
  go_on (err e) f s = (err e, s)

  infixl 5 ◌>>=◌ ◌>>◌
  unfoldable pub ◌>>=◌ : Exec S A → (A → Exec S B) → Exec S B
  ◌>>=◌ m f s = let (r, s') = m s in go_on r f s'

  abbrev pub ◌>>◌ : Exec S A → Exec S B → Exec S B
  m >> n = m >>= λ _. n

module _ {S : Type 0} where
  abbrev pub when : Bool → Exec S (Unit {0}) → Exec S (Unit {0})
  when true m s = m s
  when false m s = (ok tt, s)

-- After `m`, whether it returns or raises, `Q` holds if `P` held before.
abbrev pub Ensures : {S A : Type 0} → (S → Type 0) → Exec S A → (S → Type 0) → Type 0
Ensures {S} P m Q = (s : S) → P s → Q (m s).1

abbrev pub Keeps : {S A : Type 0} → (S → Type 0) → Exec S A → Type 0
Keeps P m = Ensures P m P

module _ {S A B : Type 0} {Q : S → Type 0} where
  go_on_keeps :
      (f : A → Exec S B)
      → ((a : A) → Keeps Q (f a))
      → (r : Result A) (s : S) → Q s
      → Q (go_on r f s).1
  go_on_keeps f hf (ok a) s h = hf a s h
  go_on_keeps f hf (err e) s h = h

module _ {S A B : Type 0} {P Q : S → Type 0} where
  go_on-Ensures :
      (f : A → Exec S B)
      → ((a : A) → Ensures P (f a) Q)
      → ((s : S) → P s → Q s)
      → (r : Result A) (s : S) → P s
      → Q (go_on r f s).1
  go_on-Ensures f hf weaken (ok a) s h = hf a s h
  go_on-Ensures f hf weaken (err e) s h = weaken s h

  -- `m` keeps `P` and what follows leads from `P` to `Q`.
  pub bind-Ensures :
      (m : Exec S A) (f : A → Exec S B)
      → Keeps P m
      → ((a : A) → Ensures P (f a) Q)
      → ((s : S) → P s → Q s)
      → Ensures P (m >>= f) Q
  unfolding ◌>>=◌
  bind-Ensures m f hm hf weaken s h = go_on-Ensures f hf weaken (m s).0 (m s).1 (hm s h)

  -- `m` leads from `P` to `Q` and what follows keeps `Q`.
  pub bind_after-Ensures :
      (m : Exec S A) (f : A → Exec S B)
      → Ensures P m Q
      → ((a : A) → Keeps Q (f a))
      → Ensures P (m >>= f) Q
  unfolding ◌>>=◌
  bind_after-Ensures m f hm hf s h = go_on_keeps f hf (m s).0 (m s).1 (hm s h)

module _ {S A : Type 0} {Q : S → Type 0} where
  caught-Keeps :
      (f : Error → Exec S A)
      → ((e : Error) → Keeps Q (f e))
      → (r : Result A) (s : S) → Q s
      → Q (catch_with (r, s) f).1
  caught-Keeps f hf (ok a) s h = h
  caught-Keeps f hf (err e) s h = hf e s h

module _ {S A : Type 0} {P Q : S → Type 0} where
  pub catching-Ensures :
      (m : Exec S A) (f : Error → Exec S A)
      → Ensures P m Q
      → ((e : Error) → Keeps Q (f e))
      → Ensures P (catching m f) Q
  catching-Ensures m f hm hf s h = caught-Keeps f hf (m s).0 (m s).1 (hm s h)

module _ {S A B : Type 0} (P : S → Type 0) where
  pub bind-Keeps :
      (m : Exec S A) (f : A → Exec S B) → Keeps P m → ((a : A) → Keeps P (f a)) → Keeps P (m >>= f)
  bind-Keeps m f hm hf = bind-Ensures {P = P} {Q = P} m f hm hf (λ s h. h)

module _ {S : Type 0} (P : S → Type 0) where
  pub check-Keeps : (b : Bool) (e : Error) → Keeps P (check b e)
  check-Keeps true e s h = h
  check-Keeps false e s h = h

  pub when-Keeps : (b : Bool) (m : Exec S (Unit {0})) → Keeps P m → Keeps P (when b m)
  when-Keeps true m hm s h = hm s h
  when-Keeps false m hm s h = h

  pub if-Keeps :
      {A : Type 0} (b : Bool) (m n : Exec S A)
      → Keeps P m
      → Keeps P n
      → Keeps P (if b then m else n)
  if-Keeps true m n hm hn = hm
  if-Keeps false m n hm hn = hn

  pub catching-Keeps :
      {A : Type 0} (m : Exec S A) (f : Error → Exec S A)
      → Keeps P m
      → ((e : Error) → Keeps P (f e))
      → Keeps P (catching m f)
  catching-Keeps m f hm hf = catching-Ensures {P = P} {Q = P} m f hm hf

-- A property of both branches.
pub if-holds :
    {T : Type 0} (P : T → Type 0) (b : Bool) (x y : T) → P x → P y → P (if b then x else y)
if-holds P true x y hx hy = hx
if-holds P false x y hx hy = hy

-- `P` of the value of a result, where there is one.
unfoldable pub ResultHas : {A : Type 0} → (A → Type 0) → Result A → Type 0
ResultHas P (ok a) = P a
ResultHas P (err e) = Unit {0}

pub then_do-has :
    {A B : Type 0} (P : B → Type 0) (r : Result A) (f : A → Result B)
    → ((a : A) → r ≡ ok a → ResultHas P (f a))
    → ResultHas P (then_do r f)
unfolding ResultHas
then_do-has P (ok a) f h = h a refl
then_do-has P (err e) f h = tt

pub ResultHas-ok :
    {A : Type 0} (P : A → Type 0) (r : Result A) (a : A) → r ≡ ok a → ResultHas P r → P a
unfolding ResultHas
ResultHas-ok P r a e h = subst (ResultHas P) e h
