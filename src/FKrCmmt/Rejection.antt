-- ===== src/FKrCmmt/Rejection.antt =====
-- Unsupported modes of operation in src/functional_model/cia402_drive/adapter/f_kr_cmmt.py.
use ethercat_device_simulato.Prelude.{
  ℕ, ◌⊎◌, ◌≢◌, ==_iff, ◌+◌, ◌≡◌, refl, arith, subst, Bool, true, false, List, [], ◌∷◌, ◌++◌, length,
  take, drop, inl, inr,
}
use ethercat_device_simulato.Exec.{
  Error, Result, ok, err, Exec, check, when, device_rejected, ◌>>=◌, ◌>>◌,
}
use ethercat_device_simulato.Value.{Value}
use ethercat_device_simulato.Codec.{Floats}
use ethercat_device_simulato.Od.{OdModel}
use ethercat_device_simulato.Numbers.{Numbers}
use ethercat_device_simulato.Servo.{Servo}
use ethercat_device_simulato.Bridge.{PdoEntry, byte_length}
use ethercat_device_simulato.ConfiguredOd.{Profile}
use ethercat_device_simulato.FKrCmmt.{
  signed_of, is_supported, is_mode, validate_mode, validate_modes, total_length, apply_outputs,
}

result_cases : (r : Result ℕ) → ((n : ℕ) × (r ≡ ok n)) ⊎ ((e : Error) × (r ≡ err e))
result_cases (ok n) = inl (n, refl)
result_cases (err e) = inr (e, refl)

start_nil : (start : ℕ) → total_length [] ≡ ok start → start ≡ 0
unfolding total_length
start_nil start h = ground arith

start_zero : (n : ℕ) → n ≡ 0 + n
start_zero n = omega arith

start_cons :
    (x : PdoEntry) (xs : List PdoEntry) (n j start : ℕ)
    → byte_length x ≡ ok n
    → total_length xs ≡ ok j
    → total_length (x ∷ xs) ≡ ok start
    → start ≡ n + j
unfolding total_length
start_cons x xs n j start p q h = ground arith

no_size :
    (x : PdoEntry) (xs : List PdoEntry) (start : ℕ) (e : Error)
    → byte_length x ≡ err e
    → total_length (x ∷ xs) ≢ ok start
unfolding total_length
no_size x xs start e p h = ground arith

no_rest :
    (x : PdoEntry) (xs : List PdoEntry) (start : ℕ) (e : Error)
    → total_length xs ≡ err e
    → total_length (x ∷ xs) ≢ ok start
unfolding total_length
no_rest x xs start e p h = ground arith

-- The bytes at `at` of the payload are no supported mode.
abbrev pub Unsupported : ℕ → ℕ → List ℕ → Type 0
Unsupported at size payload = is_supported (signed_of (take size (drop at payload))) ≡ false

guard_then :
    {S : Type 0} (needed supported : Bool) (m : Exec S (Unit {0})) (s : S)
    → m s ≡ (err device_rejected, s)
    → (when needed (check supported device_rejected) >> m) s ≡ (err device_rejected, s)
unfolding ◌>>=◌
guard_then true true m s h = h
guard_then true false m s h = refl
guard_then false supported m s h = h

module _ {S : Type 0} (rest : List PdoEntry) (e : PdoEntry) (payload : List ℕ) (size : ℕ) where
  head_rejects :
      (offset : ℕ) (s : S)
      → byte_length e ≡ ok size
      → is_mode e.index e.subindex ≡ true
      → Unsupported offset size payload
      → validate_modes (e ∷ rest) offset payload s ≡ (err device_rejected, s)
  unfolding validate_modes validate_mode ◌>>=◌
  head_rejects offset s k m u = rw (k, m, u)

  tail_rejects :
      (x : PdoEntry) (es : List PdoEntry) (n offset : ℕ) (s : S)
      → byte_length x ≡ ok n
      → validate_modes es (offset + n) payload s ≡ (err device_rejected, s)
      → validate_modes (x ∷ es) offset payload s ≡ (err device_rejected, s)
  unfolding validate_modes validate_mode ◌>>=◌
  tail_rejects x es n offset s k ih = rw k (
      guard_then (is_mode x.index x.subindex)
        (is_supported (signed_of (take n (drop offset payload))))
        (validate_modes es (offset + n) payload) s ih)

  validate_modes-rejects :
      (es : List PdoEntry) (start offset : ℕ) (s : S)
      → total_length es ≡ ok start
      → byte_length e ≡ ok size
      → is_mode e.index e.subindex ≡ true
      → Unsupported (offset + start) size payload
      → validate_modes (es ++ e ∷ rest) offset payload s ≡ (err device_rejected, s)
  validate_modes-rejects [] start offset s h k m u =
      head_rejects offset s k m
        (subst (λ a. Unsupported a size payload) (omega (arith, start_nil start h)) u)
  validate_modes-rejects (x ∷ xs) start offset s h k m u = elim (result_cases (byte_length x)) [
    | inr (f, p) ↦ absurd (no_size x xs start f p h)
    | inl (n, p) ↦ elim (result_cases (total_length xs)) [
      | inr (f, q) ↦ absurd (no_rest x xs start f q h)
      | inl (j, q) ↦ tail_rejects x (xs ++ e ∷ rest) n offset s p (
          validate_modes-rejects xs j (offset + n) s q k m (
            subst (λ a. Unsupported a size payload) (omega (arith, start_cons x xs n j start p q h))
              u))
    ]
  ]

module _ {F : Type 0} (floats : Floats F) (nums : Numbers (Value F)) (seconds : ℕ → Value F)
    (profile : Profile F) (tx : List PdoEntry) where
  -- An RxPDO of the right length that asks for an unsupported mode of operation is rejected, and
  -- neither the servo nor its Object Dictionary changes.
  pub apply_outputs-rejects :
      (es rest : List PdoEntry) (e : PdoEntry) (payload : List ℕ) (start size : ℕ)
      (s : Servo (OdModel F) (Value F))
      → total_length (es ++ e ∷ rest) ≡ ok (length payload)
      → total_length es ≡ ok start
      → byte_length e ≡ ok size
      → is_mode e.index e.subindex ≡ true
      → Unsupported start size payload
      → apply_outputs floats nums seconds profile (es ++ e ∷ rest) tx payload s
        ≡ (err device_rejected, s)
  unfolding apply_outputs ◌>>=◌
  apply_outputs-rejects es rest e payload start size s whole h k m u = rw (
    whole,
    (==_iff (length payload) (length payload)).1 refl,
    validate_modes-rejects {S = Servo (OdModel F) (Value F)} rest e payload size es start 0 s h k m
        (subst (λ a. Unsupported a size payload) (start_zero start) u),
  )
