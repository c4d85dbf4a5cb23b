-- ===== src/Codec/RoundTrip.antt =====
-- The whole-number formats of the codec: ranges and round trips.
use ethercat_device_simulato.Prelude.{
  ℕ, zero, suc, [], ◌∷◌, ◌*◌, ◌^◌, ◌<◌, ◌≡◌, refl, ap, subst, ◌∙◌, arith, ℤ, Bool, true, false,
  Option, some, List, length, take, AllBytes, from_le, to_le, from_le-to_le, to_le-from_le,
  from_le-lt, length-to_le, to_le-AllBytes,
}
use native.Mathlib.Nat.{pow-suc}
use ethercat_device_simulato.Exec.{ok, err, other}
use ethercat_device_simulato.Value.{Value, int}
use ethercat_device_simulato.DataType.{
  DataType, Format, whole, data_format, byte_array, string_like,
}
use ethercat_device_simulato.Codec.{
  Floats, to_word, of_word, fits, pack_whole, encode, decode, formatted, unformatted,
}

of_word-to_word :
    (n : ℕ) (signed : Bool) (v : ℤ) → fits n signed v ≡ true → of_word n signed (to_word n v) ≡ v
unfolding of_word to_word fits
of_word-to_word n signed v h = ground arith

to_word-lt : (n : ℕ) (signed : Bool) (v : ℤ) → fits n signed v ≡ true → to_word n v < 256 ^ n
unfolding to_word fits
to_word-lt n signed v h = ground arith

to_word-of_word : (n : ℕ) (signed : Bool) (w : ℕ) → w < 256 ^ n → to_word n (of_word n signed w) ≡ w
unfolding of_word to_word
to_word-of_word n signed w h = ground arith

-- 256 ^ n is even, so the sign test splits the words into two halves.
even_power : (n : ℕ) → 256 ^ suc n ≡ 256 ^ n * 128 * 2
even_power n = omega (arith, pow-suc 256 n)

of_word-fits :
    (n : ℕ) (signed : Bool) (w : ℕ)
    → w < 256 ^ suc n
    → fits (suc n) signed (of_word (suc n) signed w) ≡ true
unfolding of_word fits
of_word-fits n signed w h = ground (arith, even_power n)

-- A data type with a whole-number format: its size in bytes, less one, and its sign.
pub record IsWhole (t : DataType) (n : ℕ) (signed : Bool) : Type 0 where
  pub format : data_format t ≡ some (whole (suc n) signed)

module _ {F : Type 0} (floats : Floats F) where
  encode-formatted :
      (t : DataType) (v : Value F) (size : Option ℕ) (f : Format)
      → data_format t ≡ some f
      → encode floats t v size ≡ formatted floats (data_format t) size v
  unfolding encode data_format
  encode-formatted byte_array v size f h = cc
  encode-formatted string_like v size f h = cc
  encode-formatted _ v size f h = refl

  decode-unformatted :
      (t : DataType) (p : List ℕ) (f : Format)
      → data_format t ≡ some f
      → decode floats t p ≡ unformatted floats (data_format t) p
  unfolding decode data_format
  decode-unformatted byte_array p f h = cc
  decode-unformatted string_like p f h = cc
  decode-unformatted _ p f h = refl

  encode-whole :
      (t : DataType) (n : ℕ) (signed : Bool) (v : ℤ) (size : Option ℕ)
      → IsWhole t n signed
      → encode floats t (int v) size ≡ pack_whole (suc n) signed v
  unfolding formatted
  encode-whole t n signed v size h =
      encode-formatted t (int v) size _ h.format
      ∙ ap (λ (f : Option Format). formatted floats f size (int v)) h.format

  take_all : (k : ℕ) (p : List ℕ) → length p ≡ k → take k p ≡ p
  take_all zero [] h = refl
  take_all zero (x ∷ p) h = absurd (omega arith)
  take_all (suc k) [] h = refl
  take_all (suc k) (x ∷ p) h = ap (λ (l : List ℕ). x ∷ l) (take_all k p (omega arith))

  unpack-whole :
      (k : ℕ) (signed : Bool) (p : List ℕ)
      → length p ≡ k
      → unformatted floats (some (whole k signed)) p ≡ ok (int (of_word k signed (from_le p)))
  unfolding unformatted
  unpack-whole k signed p h = rw (take_all k p h) (rw h (ground arith))

  decode-whole :
      (t : DataType) (n : ℕ) (signed : Bool) (p : List ℕ)
      → IsWhole t n signed
      → length p ≡ suc n
      → decode floats t p ≡ ok (int (of_word (suc n) signed (from_le p)))
  decode-whole t n signed p h size =
      decode-unformatted t p _ h.format
      ∙ ap (λ (f : Option Format). unformatted floats f p) h.format
      ∙ unpack-whole (suc n) signed p size

  -- For a data type of `n + 1` bytes: an integer in the range of the type is encoded as that many
  -- bytes, and these decode to the integer.
  pub decode-encode :
      (t : DataType) (n : ℕ) (signed : Bool) (v : ℤ) (size : Option ℕ)
      → IsWhole t n signed
      → fits (suc n) signed v ≡ true
      → (p : List ℕ) × (encode floats t (int v) size ≡ ok p)
        × (length p ≡ suc n)
        × AllBytes p
        × (decode floats t p ≡ ok (int v))
  unfolding pack_whole
  decode-encode t n signed v size h fit =
      let w = to_word (suc n) v in
      let p = to_le (suc n) w in
      let back : of_word (suc n) signed (from_le p) ≡ v =
        ap (of_word (suc n) signed) (from_le-to_le (suc n) w (to_word-lt (suc n) signed v fit))
        ∙ of_word-to_word (suc n) signed v fit in
      (
        p,
        encode-whole t n signed v size h ∙ rw fit,
        length-to_le (suc n) w,
        to_le-AllBytes (suc n) w,
        decode-whole t n signed p h (length-to_le (suc n) w) ∙ ap (λ (x : ℤ). ok (int x)) back,
      )

  -- For a data type of `n + 1` bytes, encoding an integer out of the range of the type raises.
  pub encode_out_of_range :
      (t : DataType) (n : ℕ) (signed : Bool) (v : ℤ) (size : Option ℕ)
      → IsWhole t n signed
      → fits (suc n) signed v ≡ false
      → encode floats t (int v) size ≡ err other
  unfolding pack_whole
  encode_out_of_range t n signed v size h out = encode-whole t n signed v size h ∙ rw out

  -- Every byte string of the type's size decodes to an integer in the type's range, and that integer
  -- encodes to the same bytes.
  pub encode-decode :
      (t : DataType) (n : ℕ) (signed : Bool) (p : List ℕ) (size : Option ℕ)
      → IsWhole t n signed
      → length p ≡ suc n
      → AllBytes p
      → (v : ℤ) × (decode floats t p ≡ ok (int v))
        × (fits (suc n) signed v ≡ true)
        × (encode floats t (int v) size ≡ ok p)
  unfolding pack_whole
  encode-decode t n signed p size h len bytes =
      let w = from_le p in
      let small : w < 256 ^ suc n = subst (λ k. w < 256 ^ k) len (from_le-lt p bytes) in
      let v = of_word (suc n) signed w in
      let fit : fits (suc n) signed v ≡ true = of_word-fits n signed w small in
      let back : to_le (suc n) (to_word (suc n) v) ≡ p =
        ap (to_le (suc n)) (to_word-of_word (suc n) signed w small)
        ∙ subst (λ k. to_le k w ≡ p) len (to_le-from_le p bytes) in
      (
        v,
        decode-whole t n signed p h len,
        fit,
        encode-whole t n signed v size h ∙ rw fit (ap ok back),
      )
