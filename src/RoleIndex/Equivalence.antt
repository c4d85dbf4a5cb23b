-- ===== src/RoleIndex/Equivalence.antt =====
-- The index of src/functional_model/cia402_drive/behaviour_model/f_kr_cmmt/od_role_index.py beside the
-- scan that it replaces.
use ethercat_device_simulato.Prelude.{
  ℕ, ◌≡◌, ◌↔◌, refl, sym, ap, ◌∙◌, arith, true, Option, none, some, List, [], ◌∷◌, ◌++◌, Bool-cases,
  Option-cases, inl, inr, if◌then◌else◌,
}
use mathlib.Core.List.{append-nil, append_assoc}
use package.text.Mathlib.TextEquality.{eq_iff}
use ethercat_device_simulato.Value.{Value}
use ethercat_device_simulato.Od.{
  Definition, OdEntry, OdModel, Changes, Dict, Key, lookup, put, key_eq, storage_key, define,
  overlay, write,
}
use ethercat_device_simulato.Od.Laws.{write_missing, write_present}
use ethercat_device_simulato.RoleIndex.{
  role_eq, with_role, only_one, definition_by_role, Index, get, append_to, rebuild_from, Indexed,
  rebuild, install_role_index, indexed_by_role, indexed_define, indexed_overlay, indexed_write,
  or_rebuilt,
}
use Prim.Native.String.{String}

pub role_eq_iff : (a b : Option String) → (role_eq a b ≡ true) ↔ (a ≡ b)
unfolding role_eq
role_eq_iff none none = ground arith
role_eq_iff none (some b) = ground arith
role_eq_iff (some a) none = ground arith
role_eq_iff (some a) (some b) = ground (arith, eq_iff a b)

-- What the program does with the Object Dictionary: definitions change, values are written, roles
-- are looked up.
pub data Update (F : Type 0) : Type 0 where
  define_entry overlay_entry : ℕ → ℕ → Changes F → Update F
  write_value : ℕ → Value F → Option ℕ → Update F
  look_up : Option String → Update F

module _ {F : Type 0} where
  get-append_to :
      (role r : Option String) (d : Definition F) (index : Index F)
      → get role (append_to r d index)
        ≡ (if role_eq r role then get role index ++ d ∷ [] else get role index)
  unfolding get append_to
  get-append_to role r d [] = refl
  get-append_to role r d ((q, ds) ∷ index) =
      ground (
        arith,
        role_eq_iff q r,
        role_eq_iff q role,
        role_eq_iff r role,
        get-append_to role r d index,
      )

  -- What the loop adds to a role is what the scan of the entries finds.
  get-rebuild_from :
      (role : Option String) (index : Index F) (es : Dict (OdEntry F))
      → get role (rebuild_from index es) ≡ get role index ++ with_role role es
  unfolding rebuild_from with_role
  get-rebuild_from role index [] = sym (append-nil _)
  get-rebuild_from role index ((k, e) ∷ es) =
      rw (get-rebuild_from role (append_to e.definition.role e.definition index) es) (
        rw get-append_to (elim (Bool-cases (role_eq e.definition.role role)) [
          | inl same ↦
              rw same (append_assoc (get role index) (e.definition ∷ []) (with_role role es))
          | inr different ↦ rw different
        ]))

  get-rebuild :
      (role : Option String) (od : OdModel F) → get role (rebuild od) ≡ with_role role od.entries
  unfolding rebuild get
  get-rebuild role od = get-rebuild_from role [] od.entries

  -- A write changes no definition.
  with_role-put :
      (role : Option String) (key : Key) (v : Value F) (e : OdEntry F) (es : Dict (OdEntry F))
      → lookup key es ≡ some e
      → with_role role (put key (record e { value = v }) es) ≡ with_role role es
  unfolding with_role put lookup
  with_role-put role key v e [] h = cc
  with_role-put role key v e ((k, x) ∷ es) h = elim (Bool-cases (key_eq k key)) [
    | inl same ↦ rw same (hit same)
    | inr other ↦ rw other (ground (arith, with_role-put role key v e es (rw other at h)))
  ]
    where
      hit :
          key_eq k key ≡ true
          → with_role role ((k, record e { value = v }) ∷ es) ≡ with_role role ((k, x) ∷ es)
      hit same = ground arith

  with_role-write :
      (role : Option String) (index : ℕ) (v : Value F) (sub : Option ℕ) (od : OdModel F)
      → with_role role (write index v sub od).1.entries ≡ with_role role od.entries
  with_role-write role index v sub od =
      elim (Option-cases (lookup (storage_key index sub) od.entries)) [
        | inl h ↦ rw (write_missing index v sub od h)
        | inr (e, h) ↦
            rw (write_present index v sub od e h)
              (with_role-put role (storage_key index sub) v e od.entries h)
      ]

  -- The index is out of date and marked so, or holds for each role what the scan finds.
  abbrev pub IsFresh : Option (Index F) → OdModel F → Type 0
  IsFresh none od = Unit
  IsFresh (some index) od = (role : Option String) → get role index ≡ with_role role od.entries

  pub update : Update F → Indexed F → Indexed F
  update (define_entry i s c) x = indexed_define i s c x
  update (overlay_entry i s c) x = indexed_overlay i s c x
  update (write_value i v s) x = (indexed_write i v s x).1
  update (look_up role) x = (indexed_by_role role x).1

  -- The same without the index.
  pub plain_update : Update F → OdModel F → OdModel F
  plain_update (define_entry i s c) od = define i s c od
  plain_update (overlay_entry i s c) od = overlay i s c od
  plain_update (write_value i v s) od = (write i v s od).1
  plain_update (look_up role) od = od

  pub updates : List (Update F) → Indexed F → Indexed F
  updates [] x = x
  updates (u ∷ us) x = updates us (update u x)

  pub plain_updates : List (Update F) → OdModel F → OdModel F
  plain_updates [] od = od
  plain_updates (u ∷ us) od = plain_updates us (plain_update u od)

  or_rebuilt-fresh :
      (index : Option (Index F)) (od : OdModel F)
      → IsFresh index od
      → (role : Option String) → get role (or_rebuilt index od) ≡ with_role role od.entries
  unfolding or_rebuilt
  or_rebuilt-fresh none od h role = get-rebuild role od
  or_rebuilt-fresh (some index) od h role = h role

  IsFresh-write :
      (index : Option (Index F)) (i : ℕ) (v : Value F) (sub : Option ℕ) (od : OdModel F)
      → IsFresh index od
      → IsFresh index (write i v sub od).1
  IsFresh-write none i v sub od h = tt
  IsFresh-write (some index) i v sub od h = λ role. h role ∙ sym (with_role-write role i v sub od)

  update-IsFresh :
      (u : Update F) (x : Indexed F)
      → IsFresh x.index x.od
      → IsFresh (update u x).index (update u x).od
  unfolding update indexed_define indexed_overlay indexed_write indexed_by_role
  update-IsFresh (define_entry i s c) x h = tt
  update-IsFresh (overlay_entry i s c) x h = tt
  update-IsFresh (write_value i v s) x h = IsFresh-write x.index i v s x.od h
  update-IsFresh (look_up role) x h = or_rebuilt-fresh x.index x.od h

  od-update : (u : Update F) (x : Indexed F) → (update u x).od ≡ plain_update u x.od
  unfolding update plain_update indexed_define indexed_overlay indexed_write indexed_by_role
  od-update (define_entry i s c) x = refl
  od-update (overlay_entry i s c) x = refl
  od-update (write_value i v s) x = refl
  od-update (look_up role) x = refl

  updates_agree :
      (us : List (Update F)) (x : Indexed F)
      → IsFresh x.index x.od
      → ((updates us x).od ≡ plain_updates us x.od) × IsFresh (updates us x).index (updates us x).od
  unfolding updates plain_updates
  updates_agree [] x h = (refl, h)
  updates_agree (u ∷ us) x h =
      let rest = updates_agree us (update u x) (update-IsFresh u x h) in
      (rest.0 ∙ ap (plain_updates us) (od-update u x), rest.1)

  -- After any definitions, overlays, writes and lookups, a lookup through the index gives the
  -- definition, or the `KeyError`, that the scan of all entries gives, and leaves the entries as the
  -- plain model would have them.
  pub indexed_by_role_lem :
      (us : List (Update F)) (role : Option String) (od : OdModel F)
      → let x = updates us (install_role_index od) in
        ((indexed_by_role role x).0 ≡ definition_by_role role (plain_updates us od))
        × ((indexed_by_role role x).1.od ≡ plain_updates us od)
  unfolding install_role_index indexed_by_role definition_by_role
  indexed_by_role_lem us role od =
      let x = updates us (install_role_index od) in
      let (same, fresh) = updates_agree us (install_role_index od) (λ r. get-rebuild r od) in
      (
        ap only_one (or_rebuilt-fresh x.index x.od fresh role)
            ∙ ap (λ (t : OdModel F). only_one (with_role role t.entries)) same,
        same,
      )
