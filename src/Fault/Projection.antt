-- ===== src/Fault/Projection.antt =====
-- What the master sees of a faulted axis: the status bits of `AxisFault.response`.
use ethercat_device_simulato.Prelude.{
  Bool, ℕ, ◌<◌, ◌≡◌, refl, sym, subst, ◌∙◌, ◌++◌, arith, true, ◌&&◌, some, List, drop, ◌==◌, ltb,
  bit_and, and_not, from_le, to_le, AllBytes, [], ◌∷◌, table_holds, table_holds-lookup,
}
use ethercat_device_simulato.Fault.{AxisFault, Diagnostic, fault_bits, projected, response}
use ethercat_device_simulato.Fault.Recovery.{controlword}

-- The test of one word.
abbrev shows_fault_bits : ℕ → Bool
shows_fault_bits sw =
    bit_and (fault_bits sw) 0x106f == 0x08
    && (and_not (fault_bits sw) 0x106f == and_not sw 0x106f)
    && ltb (fault_bits sw) 65536

all_words : table_holds (λ sw. shows_fault_bits sw) 65536 ≡ true
unfolding table_holds fault_bits
all_words = refl

-- Any word of the low 16 bits: bit 3 alone is set of the bits 0x106f, the other bits are kept.
fault_bits_lem :
    (sw : ℕ)
    → sw < 65536
    → (bit_and (fault_bits sw) 0x106f ≡ 0x08)
      × (and_not (fault_bits sw) 0x106f ≡ and_not sw 0x106f)
      × (fault_bits sw < 65536)
fault_bits_lem sw h =
    ground (arith, table_holds-lookup (λ sw. shows_fault_bits sw) {x = sw} 65536 h all_words)

from_le-two : (w : ℕ) → w < 65536 → from_le (to_le 2 w) ≡ w
unfolding from_le to_le
from_le-two w h = omega arith

controlword_lt : (bs : List ℕ) → AllBytes bs → controlword bs < 65536
unfolding from_le
controlword_lt [] h = omega arith
controlword_lt (a ∷ []) h = omega arith
controlword_lt (a ∷ b ∷ bs) h = omega arith

-- `out` shows the fault over the feedback `bytes`.
abbrev pub ShowsFault : List ℕ → List ℕ → Type 0
ShowsFault bytes out =
    (bit_and (controlword out) 0x106f ≡ 0x08)
    × (and_not (controlword out) 0x106f ≡ and_not (controlword bytes) 0x106f)
    × (drop 2 out ≡ drop 2 bytes)

controlword-two : (w : ℕ) (rest : List ℕ) → controlword (to_le 2 w ++ rest) ≡ from_le (to_le 2 w)
unfolding to_le
controlword-two w rest = refl

projected_faulty :
    (bytes : List ℕ) (d : Diagnostic) → AllBytes bytes → ShowsFault bytes (projected bytes (some d))
unfolding projected
projected_faulty bytes d h =
    let w = fault_bits (controlword bytes) in
    let (fault_bit, others, small) = fault_bits_lem (controlword bytes) (controlword_lt bytes h) in
    let same : controlword (to_le 2 w ++ drop 2 bytes) ≡ w =
      controlword-two w (drop 2 bytes) ∙ from_le-two w small in
    (rw same fault_bit, rw same others, unfold to_le in refl)

-- Whenever a fault is on record, the feedback shows status bit 3, with ready, switched on, enabled,
-- quick stop, disabled and the setpoint acknowledge cleared; every other status bit and every byte
-- after the statusword is the last valid feedback of the model.
pub response_faulty :
    (s : AxisFault) (d : Diagnostic)
    → s.diagnosis ≡ some d
    → AllBytes s.last
    → ShowsFault s.last (response s).content
unfolding response
response_faulty s d h bytes =
    subst (λ x. ShowsFault s.last (projected s.last x)) (sym h) (projected_faulty s.last d bytes)
