-- ===== src/Od/Keyed.antt =====
-- Python's `dict` over the storage keys of the Object Dictionary, in insertion order: a key that is
-- there already keeps its place.
use ethercat_device_simulato.Prelude.{
  ℕ, ◌≡◌, ◌↔◌, refl, arith, Bool, true, false, ◌&&◌, Option, none, some, List, [], ◌∷◌,
  if◌then◌else◌, ◌==◌,
}

-- A key is an index, or a pair of an index and a nonzero subindex.
pub data Key : Type 0 where
  whole : ℕ → Key
  part : ℕ → ℕ → Key

unfoldable pub key_eq : Key → Key → Bool
key_eq (whole i) (whole j) = i == j
key_eq (part i a) (part j b) = i == j && a == b
key_eq _ _ = false

pub key_eq_iff : (j k : Key) → (key_eq j k ≡ true) ↔ (j ≡ k)
unfolding key_eq
key_eq_iff (whole i) (whole j) = ground arith
key_eq_iff (whole i) (part j b) = ground arith
key_eq_iff (part i a) (whole j) = ground arith
key_eq_iff (part i a) (part j b) = ground arith

abbrev pub Dict {ℓ} : Type ℓ → Type ℓ
Dict V = List (Key × V)

module _ {V : Type 0} where
  unfoldable pub lookup : Key → Dict V → Option V
  lookup k [] = none
  lookup k ((j, v) ∷ d) = if key_eq j k then some v else lookup k d

  unfoldable pub put : Key → V → Dict V → Dict V
  put k v [] = (k, v) ∷ []
  put k v ((j, w) ∷ d) = if key_eq j k then (j, v) ∷ d else (j, w) ∷ put k v d

  pub lookup-put :
      (k j : Key) (v : V) (d : Dict V)
      → lookup j (put k v d) ≡ (if key_eq k j then some v else lookup j d)
  unfolding lookup put
  lookup-put k j v [] = refl
  lookup-put k j v ((i, w) ∷ d) =
      ground (arith, key_eq_iff i k, key_eq_iff i j, key_eq_iff k j, lookup-put k j v d)
