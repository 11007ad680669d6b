-- ===== src/Introspect/Tables/Visited.antt =====
-- About the order in which `range` visits the ids of keys, in introspect/postgres/postgres.go and
-- introspect/mysql/mysql.go.
use mathlib.Core.List.Permᴰ.{Permᴰ, nil, cons, swap, trans}
use tiqq.Prelude.{ℕ, ◌≤◌, ◌<◌, List, [], ◌∷◌, map, Text, length, All, ok, ◌≡◌, ap}
use tiqq.Schema.{Table}
use tiqq.Introspect.{Pairs}
use tiqq.Introspect.Tables.Attached.{All-Perm}
use tiqq.Introspect.Tables.Keyed.{
  Placed, attach_each, at_each, keyed, primaries, SameUnique, attach_each-keyed, keyed-SameUnique,
}

module _ (placed : Text → Placed) where
  -- The owners of all ids have tables.
  abbrev pub HasPlaces : List Table → List Text → Type 0
  HasPlaces ts ids = All (λ id. (placed id).place < length ts) ids

  -- No table has two primary keys.
  abbrev pub OnePrimary : List Text → Type 0
  OnePrimary ids = (j : ℕ) → length (primaries j (map placed ids)) ≤ 1

  -- The tables with their keys, in the order in which these are visited.
  abbrev pub with_keys : List Text → List Table → List Table
  with_keys ids ts = at_each (keyed (map placed ids)) 0 ts

  map-Perm : {ids ids' : List Text} → Permᴰ ids ids' → Permᴰ (map placed ids) (map placed ids')
  map-Perm nil = nil
  map-Perm (cons e p) = cons (ap placed e) (map-Perm p)
  map-Perm (swap e f) = swap (ap placed e) (ap placed f)
  map-Perm (trans p q) = trans (map-Perm p) (map-Perm q)

  All-map :
      (n : ℕ) (ids : List Text)
      → All (λ id. (placed id).place < n) ids
      → All (λ (p : Placed). p.place < n) (map placed ids)
  All-map n [] h = tt
  All-map n (id ∷ ids) (h, hs) = (h, All-map n ids hs)

  pub attach_each-Perm :
      (ids ids' : List Text) (ts : List Table)
      → Permᴰ ids ids'
      → HasPlaces ts ids
      → OnePrimary ids
      → (attach_each (map placed ids) ts ≡ ok (with_keys ids ts))
        × (us : List Table) × (attach_each (map placed ids') ts ≡ ok us)
        × Pairs SameUnique (with_keys ids ts) us
  attach_each-Perm ids ids' ts p h o = (
    attach_each-keyed (map placed ids) ts (All-map (length ts) ids h),
    with_keys ids' ts,
    attach_each-keyed (map placed ids') ts (All-map (length ts) ids' (All-Perm _ p h)),
    keyed-SameUnique (map placed ids) (map placed ids') 0 ts (map-Perm p) o,
  )
