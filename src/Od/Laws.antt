-- ===== src/Od/Laws.antt =====
-- What a write of the Object Dictionary changes, and what it leaves alone.
use ethercat_device_simulato.Prelude.{
  ℕ, zero, suc, ◌+◌, ◌≡◌, ◌∙◌, arith, Bool, ◌&&◌, ◌==◌, Option, none, some, inl, inr, Option-cases,
  if◌then◌else◌,
}
use ethercat_device_simulato.Exec.{ok, err, key_error}
use ethercat_device_simulato.Value.{Value}
use ethercat_device_simulato.Od.{
  Definition, OdEntry, OdModel, lookup, put, key_eq, key_eq_iff, lookup-put, storage_key, read,
  write, definition, has_entry, or_else,
}

-- The same index, and the same subindex, where none is given for 0.
abbrev pub same_address : ℕ → Option ℕ → ℕ → Option ℕ → Bool
same_address index sub other other_sub = index == other && or_else 0 sub == or_else 0 other_sub

-- Two addresses have one storage key exactly where they are the same.
key_eq-storage_key :
    (i j : ℕ) (a b : Option ℕ) → key_eq (storage_key i a) (storage_key j b) ≡ same_address i a j b
unfolding key_eq storage_key
key_eq-storage_key i j none none = ground arith
key_eq-storage_key i j none (some zero) = ground arith
key_eq-storage_key i j none (some (suc b)) = ground arith
key_eq-storage_key i j (some zero) none = ground arith
key_eq-storage_key i j (some zero) (some zero) = ground arith
key_eq-storage_key i j (some zero) (some (suc b)) = ground arith
key_eq-storage_key i j (some (suc a)) none = ground arith
key_eq-storage_key i j (some (suc a)) (some zero) = ground arith
key_eq-storage_key i j (some (suc a)) (some (suc b)) = ground arith

nested :
    {A : Type 0} (b c : Bool) (x y : A)
    → (if b then (if c then x else y) else y) ≡ (if b && c then x else y)
nested b c x y = ground arith

module _ {F : Type 0} (index : ℕ) (v : Value F) (sub : Option ℕ) (od : OdModel F) where
  pub write_missing :
      lookup (storage_key index sub) od.entries ≡ none → write index v sub od ≡ (err key_error, od)
  unfolding write
  write_missing h = ground arith

  pub write_present :
      (e : OdEntry F)
      → lookup (storage_key index sub) od.entries ≡ some e
      → write index v sub od ≡ (
        ok tt,
        record od {
          entries = put (storage_key index sub) (record e { value = v }) od.entries;
          last_write_key = some (storage_key index sub);
          write_generation = od.write_generation + 1;
        },
      )
  unfolding write
  write_present e h = ground arith

  pub write-defined :
      (d : Definition F) → definition index sub od ≡ ok d → (write index v sub od).0 ≡ ok tt
  unfolding definition write
  write-defined d h = ground arith

  -- A read after a write, by the keys.
  pub read-write_key :
      (other : ℕ) (other_sub : Option ℕ)
      → read other other_sub (write index v sub od).1 ≡ (
          if has_entry index sub od
          then (if key_eq (storage_key index sub) (storage_key other other_sub)
              then ok v
              else read other other_sub od)
          else read other other_sub od)
  unfolding read has_entry
  read-write_key other other_sub = elim (Option-cases (lookup (storage_key index sub) od.entries)) [
    | inl h ↦ ground (arith, write_missing h)
    | inr (e, h) ↦ ground (
      arith,
      write_present e h,
      lookup-put (storage_key index sub) (storage_key other other_sub) (record e { value = v })
          od.entries,
    )
  ]

  -- After a write to an entry that is there, a read of the same index and subindex, where an absent
  -- subindex is subindex 0, gives the new value, and a read of any other address what it gave before;
  -- after a write to a missing one, which raises, every read gives what it gave before.
  pub read-write :
      (other : ℕ) (other_sub : Option ℕ)
      → read other other_sub (write index v sub od).1 ≡ (
          if has_entry index sub od && same_address index sub other other_sub
          then ok v
          else read other other_sub od)
  read-write other other_sub =
      read-write_key other other_sub
      ∙ (rw (key_eq-storage_key index other sub other_sub) (
          nested (has_entry index sub od) (same_address index sub other other_sub) (ok v)
            (read other other_sub od)))

  -- A write changes no definition, and neither adds nor removes an entry.
  pub definition-write :
      (other : ℕ) (other_sub : Option ℕ)
      → definition other other_sub (write index v sub od).1 ≡ definition other other_sub od
  unfolding definition
  definition-write other other_sub =
      elim (Option-cases (lookup (storage_key index sub) od.entries)) [
        | inl h ↦ ground (arith, write_missing h)
        | inr (e, h) ↦ ground (
          arith,
          write_present e h,
          lookup-put (storage_key index sub) (storage_key other other_sub) (record e { value = v })
              od.entries,
          key_eq_iff (storage_key index sub) (storage_key other other_sub),
        )
      ]
