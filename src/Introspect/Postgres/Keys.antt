-- ===== src/Introspect/Postgres/Keys.antt =====
-- About the loop over keys of introspect/postgres/postgres.go.
use mathlib.Core.Path.{fun_ext}
use mathlib.Core.List.Permᴰ.{Permᴰ}
use tiqq.Prelude.{
  ℕ, false, ◌==◌, ◌≢◌, arith, some, All, if_false, ◌++◌, List, [], ◌∷◌, map, Text, codes, equal,
  lookup, value_or, Result, ok, ◌>>=◌, ◌≡◌, refl, ap, ◌∙◌,
}
use tiqq.Schema.{Table}
use tiqq.Introspect.{Pairs}
use tiqq.Introspect.Tables.{constraint_id, index_of, update_at}
use tiqq.Introspect.Tables.Keyed.{Placed, change, attach_each, SameUnique}
use tiqq.Introspect.Tables.Visited.{HasPlaces, OnePrimary, with_keys, attach_each-Perm}
use tiqq.Introspect.Postgres.{KeyEntry, zero_entry, owner_of, before_nul, attach_keys}

not_zero : (c : ℕ) → c ≢ 0 → (c == 0) ≡ false
not_zero c h = ground arith

before_nul-append : (t n : Text) → All (λ c. c ≢ 0) t → before_nul (t ++ 0 ∷ n) ≡ some t
before_nul-append [] n h = refl
before_nul-append (c ∷ t) n (h, hs) = rw (before_nul-append t n hs) (if_false (not_zero c h) _ _)

-- The id of a constraint gives back its table, unless the table's name has a NUL.
owner_of-constraint_id : (t n : Text) → All (λ c. c ≢ 0) t → owner_of (constraint_id t n) ≡ t
unfolding owner_of
owner_of-constraint_id t n h = ap (value_or []) (before_nul-append t n h)

module _ (index : List (Text × ℕ)) (m : List (Text × KeyEntry)) where
  -- Where a visited key goes.
  abbrev pub placed : Text → Placed
  placed id = record {
    place = index_of index (owner_of id);
    is_primary = equal (value_or zero_entry (lookup equal id m)).kind (codes "PRIMARY KEY");
    key = (value_or zero_entry (lookup equal id m)).key;
  }

  attach_keys-placed :
      (ids : List Text) (ts : List Table)
      → attach_keys index m ids ts ≡ attach_each (map placed ids) ts
  unfolding attach_keys
  attach_keys-placed [] ts = refl
  attach_keys-placed (id ∷ ids) ts =
      ap
        (λ (rest : List Table → Result (List Table)).
          update_at (placed id).place (change (placed id)) ts >>= rest)
        (fun_ext (λ us. attach_keys-placed ids us))

  -- If the owner of every id that is visited has a table, and no table has two primary keys, the loop
  -- over the keys of a PostgreSQL schema never indexes out of range: it gives every table its primary key
  -- and adds its unique keys, in the order in which they are visited, and changes nothing else;
  -- visiting the ids in another order gives the same tables, up to the order of their unique keys.
  pub attach_keys-Perm :
      (ids ids' : List Text) (ts : List Table)
      → Permᴰ ids ids'
      → HasPlaces placed ts ids
      → OnePrimary placed ids
      → (attach_keys index m ids ts ≡ ok (with_keys placed ids ts))
        × (us : List Table) × (attach_keys index m ids' ts ≡ ok us)
        × Pairs SameUnique (with_keys placed ids ts) us
  attach_keys-Perm ids ids' ts p h o =
      let (e, us, e', s) = attach_each-Perm placed ids ids' ts p h o in
      (attach_keys-placed ids ts ∙ e, us, attach_keys-placed ids' ts ∙ e', s)
