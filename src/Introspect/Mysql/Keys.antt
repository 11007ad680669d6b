-- ===== src/Introspect/Mysql/Keys.antt =====
-- About the loop over keys of introspect/mysql/mysql.go.
use mathlib.Core.Path.{fun_ext}
use mathlib.Core.List.Permᴰ.{Permᴰ}
use tiqq.Prelude.{
  ℕ, List, [], ◌∷◌, map, Text, codes, equal, lookup, value_or, Result, ok, ◌>>=◌, ◌≡◌, refl, ap,
  ◌∙◌,
}
use tiqq.Schema.{Table}
use tiqq.Introspect.{Pairs}
use tiqq.Introspect.Tables.{index_of, update_at}
use tiqq.Introspect.Tables.Keyed.{Placed, change, attach_each, SameUnique}
use tiqq.Introspect.Tables.Visited.{HasPlaces, OnePrimary, with_keys, attach_each-Perm}
use tiqq.Introspect.Mysql.{KeyEntry, zero_entry, attach_keys}

module _ (index : List (Text × ℕ)) (m : List (Text × KeyEntry)) where
  -- Where a visited key goes.
  abbrev pub placed : Text → Placed
  placed id = record {
    place = index_of index ((value_or zero_entry (lookup equal id m)).owner);
    is_primary = equal (value_or zero_entry (lookup equal id m)).kind (codes "PRIMARY KEY");
    key = (value_or zero_entry (lookup equal id m)).key;
  }

  attach_keys-placed :
      (ids : List Text) (ts : List Table)
      → attach_keys index m ids ts ≡ attach_each (map placed ids) ts
  unfolding attach_keys
  attach_keys-placed [] ts = refl
  attach_keys-placed (id ∷ ids) ts =
      ap
        (λ (rest : List Table → Result (List Table)).
          update_at (placed id).place (change (placed id)) ts >>= rest)
        (fun_ext (λ us. attach_keys-placed ids us))

  -- If the owner of every id that is visited has a table, and no table has two primary keys, the loop
  -- over the keys of a MySQL schema never indexes out of range: it gives every table its primary key
  -- and adds its unique keys, in the order in which they are visited, and changes nothing else;
  -- visiting the ids in another order gives the same tables, up to the order of their unique keys.
  pub attach_keys-SameUnique :
      (ids ids' : List Text) (ts : List Table)
      → Permᴰ ids ids'
      → HasPlaces placed ts ids
      → OnePrimary placed ids
      → (attach_keys index m ids ts ≡ ok (with_keys placed ids ts))
        × (us : List Table) × (attach_keys index m ids' ts ≡ ok us)
        × Pairs SameUnique (with_keys placed ids ts) us
  attach_keys-SameUnique ids ids' ts p h o =
      let (e, us, e', s) = attach_each-Perm placed ids ids' ts p h o in
      (attach_keys-placed ids ts ∙ e, us, attach_keys-placed ids' ts ∙ e', s)
