-- ===== src/Codec/Tests.antt =====
-- The theorems on the codec at concrete values.
use ethercat_device_simulato.Prelude.{
  ℕ, ◌≡◌, refl, arith, ℤ, pos, negsuc, true, none, List, [], ◌∷◌, length, AllBytes,
}
use ethercat_device_simulato.Exec.{ok, err, other}
use ethercat_device_simulato.Value.{int}
use ethercat_device_simulato.DataType.{int16, data_format}
use ethercat_device_simulato.Codec.{Floats, encode, decode, fits}
use ethercat_device_simulato.Codec.RoundTrip.{IsWhole, decode-encode, encode-decode}

-- Texts and floats do not occur below.
abbrev pub floats : Floats ℕ
floats = record {
  trunc = λ x. ok (pos x);
  parse_int = λ s. err other;
  pack_single = λ x. ok (0 ∷ 0 ∷ 0 ∷ 0 ∷ []);
  pack_single_int = λ v. ok (0 ∷ 0 ∷ 0 ∷ 0 ∷ []);
  unpack_single = λ p. 0;
  show = λ v. [];
}

int16-IsWhole : IsWhole int16 1 true
unfolding data_format
int16-IsWhole = record { format = refl }

minus_two_fits : fits 2 true (negsuc 1) ≡ true
unfolding fits
minus_two_fits = refl

decode-encode_example :
    (p : List ℕ) × (encode floats int16 (int (negsuc 1)) none ≡ ok p)
    × (length p ≡ 2)
    × AllBytes p
    × (decode floats int16 p ≡ ok (int (negsuc 1)))
decode-encode_example =
    decode-encode floats int16 1 true (negsuc 1) none int16-IsWhole minus_two_fits

encode-decode_example :
    (v : ℤ) × (decode floats int16 (254 ∷ 255 ∷ []) ≡ ok (int v))
    × (fits 2 true v ≡ true)
    × (encode floats int16 (int v) none ≡ ok (254 ∷ 255 ∷ []))
encode-decode_example =
    encode-decode floats int16 1 true (254 ∷ 255 ∷ []) none int16-IsWhole refl
      (omega arith, (omega arith, tt))
