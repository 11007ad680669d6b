-- ===== src/Introspect/Tables/Attached.antt =====
-- About the loop over foreign keys that introspect/postgres/postgres.go and introspect/mysql/mysql.go
-- share: `range` visits the map in an order that the language leaves open.
use mathlib.Core.List.Permᴰ
use mathlib.Core.List.Permᴰ.{Permᴰ, nil, cons, swap, trans}
use tiqq.Prelude.{
  ℕ, zero, suc, ◌+◌, ◌≤◌, ◌<◌, false, List, [], ◌∷◌, ◌++◌, append_assoc, append-nil, Text, equal,
  length, ◌==◌, ==_iff, if◌then◌else◌, Bool-cases, if_true, if_false, lookup, value_or, All, ok,
  ◌≡◌, inl, inr, refl, sym, ap, subst, ◌∙◌, arith,
}
use tiqq.Schema.{ForeignKey, Table}
use tiqq.Introspect.{Pairs}
use tiqq.Introspect.Tables.{
  index_of, update_at, append_foreign, ForeignEntry, zero_foreign_entry, attach_foreign,
}

-- Every table with more foreign keys, which a function gives for its index.
abbrev pub extended : (ℕ → List ForeignKey) → ℕ → List Table → List Table
extended keys k [] = []
extended keys k (t ∷ ts) =
    record t { foreign_keys = t.foreign_keys ++ keys k } ∷ extended keys (suc k) ts

-- One more key for one index.
abbrev more : ℕ → ForeignKey → (ℕ → List ForeignKey) → ℕ → List ForeignKey
more i key keys j = if i == j then key ∷ keys j else keys j

extended_same :
    (keys keys' : ℕ → List ForeignKey) (k : ℕ) (ts : List Table)
    → ((j : ℕ) → k ≤ j → keys j ≡ keys' j)
    → extended keys k ts ≡ extended keys' k ts
extended_same keys keys' k [] h = refl
extended_same keys keys' k (t ∷ ts) h =
    cc (h k (omega arith), extended_same keys keys' (suc k) ts (λ j l. h j (omega arith)))

extended_nothing : (k : ℕ) (ts : List Table) → extended (λ j. []) k ts ≡ ts
extended_nothing k [] = refl
extended_nothing k (t ∷ ts) = cc (append-nil t.foreign_keys, extended_nothing (suc k) ts)

pub less-== : (i j : ℕ) → i < j → (i == j) ≡ false
less-== i j h = ground arith

pub more-== : (i j : ℕ) → j < i → (i == j) ≡ false
more-== i j h = ground arith

with_keys :
    (t : Table) (ts us : List Table) {ks ks' : List ForeignKey}
    → ks ≡ ks'
    → ts ≡ us
    → record t { foreign_keys = ks } ∷ ts ≡ record t { foreign_keys = ks' } ∷ us
with_keys t ts us e f = cc (e, f)

extended-append_foreign :
    (key : ForeignKey) (keys : ℕ → List ForeignKey) (i k p : ℕ) (ts : List Table)
    → p ≡ k + i
    → i < length ts
    → (us : List Table) × (update_at i (append_foreign key) ts ≡ ok us)
      × (length us ≡ length ts)
      × (extended keys k us ≡ extended (more p key keys) k ts)
unfolding update_at
extended-append_foreign key keys i k p [] e h = elim h [ ]
extended-append_foreign key keys zero k p (t ∷ ts) e h = (
  append_foreign key t ∷ ts,
  refl,
  refl,
  with_keys t _ _
      (append_assoc t.foreign_keys (key ∷ []) (keys k)
        ∙ ap (λ ks. t.foreign_keys ++ ks) (sym (if_true ((==_iff p k).1 (omega arith)) _ _)))
      (extended_same keys (more p key keys) (suc k) ts
        (λ j l. sym (if_false (less-== p j (omega arith)) _ _))),
)
extended-append_foreign key keys (suc i) k p (t ∷ ts) e h =
    let (us, u, l, f) =
      extended-append_foreign key keys i (suc k) p ts (omega arith) (omega arith) in
    (
      t ∷ us,
      rw u refl,
      ap suc l,
      with_keys t _ _
          (ap (λ ks. t.foreign_keys ++ ks) (sym (if_false (more-== p k (omega arith)) _ _))) f,
    )

module _ (index : List (Text × ℕ)) (m : List (Text × ForeignEntry)) where
  abbrev entry : Text → ForeignEntry
  entry id = value_or zero_foreign_entry (lookup equal id m)

  abbrev owner_index : Text → ℕ
  owner_index id = index_of index (entry id).owner

  -- The foreign keys that belong to the table at an index, in the order of the ids.
  abbrev pub owned : List Text → ℕ → List ForeignKey
  owned [] j = []
  owned (id ∷ ids) j =
      let rest = owned ids j in if owner_index id == j then (entry id).foreign ∷ rest else rest

  -- The owners of all ids have tables.
  abbrev pub HasOwners : List Table → List Text → Type 0
  HasOwners ts ids = All (λ id. owner_index id < length ts) ids

  attach_foreign-extended :
      (ids : List Text) (ts : List Table)
      → HasOwners ts ids
      → attach_foreign index m ids ts ≡ ok (extended (owned ids) 0 ts)
  unfolding attach_foreign
  attach_foreign-extended [] ts h = ap ok (sym (extended_nothing 0 ts))
  attach_foreign-extended (id ∷ ids) ts (h, hs) =
      let (us, u, l, e) =
        extended-append_foreign (entry id).foreign (owned ids) (owner_index id) 0 (owner_index id)
          ts (omega arith) h in
      rw u (
        attach_foreign-extended ids us
          (subst (λ (n : ℕ). All (λ i. owner_index i < n) ids) (sym l) hs)
        ∙ ap ok e)

  owned_swap :
      (j : ℕ) (a b : Text) (l : List Text) → Permᴰ (owned (a ∷ b ∷ l) j) (owned (b ∷ a ∷ l) j)
  owned_swap j a b l = elim (Bool-cases (owner_index a == j)) [
    | inl h ↦ elim (Bool-cases (owner_index b == j)) [
      | inl k ↦ rw (h, k) (swap refl refl)
      | inr k ↦ rw (h, k) (Permᴰ.refl _)
    ]
    | inr h ↦ elim (Bool-cases (owner_index b == j)) [
      | inl k ↦ rw (h, k) (Permᴰ.refl _)
      | inr k ↦ rw (h, k) (Permᴰ.refl _)
    ]
  ]

  owned-Perm : (j : ℕ) {ids ids' : List Text} → Permᴰ ids ids' → Permᴰ (owned ids j) (owned ids' j)
  owned-Perm j nil = nil
  owned-Perm j (cons {a} {b} {l₁} {l₂} e p) =
      subst (λ c. Permᴰ (owned (a ∷ l₁) j) (owned (c ∷ l₂) j)) e
        (elim (Bool-cases (owner_index a == j)) [
          | inl h ↦ rw h (cons refl (owned-Perm j p))
          | inr h ↦ rw h (owned-Perm j p)
        ])
  owned-Perm j (swap {a} {b} {a'} {b'} {l} e f) =
      subst (λ c. Permᴰ (owned (a ∷ b ∷ l) j) (owned (c ∷ b' ∷ l) j)) f
        (subst (λ c. Permᴰ (owned (a ∷ b ∷ l) j) (owned (b ∷ c ∷ l) j)) e (owned_swap j a b l))
  owned-Perm j (trans p q) = trans (owned-Perm j p) (owned-Perm j q)

-- Two tables that differ only in the order of their foreign keys.
abbrev pub SameKeys : Table → Table → Type 0
SameKeys t u =
    Permᴰ t.foreign_keys u.foreign_keys × (u ≡ record t { foreign_keys = u.foreign_keys })

append-Perm :
    (xs : List ForeignKey) {ys zs : List ForeignKey} → Permᴰ ys zs → Permᴰ (xs ++ ys) (xs ++ zs)
append-Perm [] p = p
append-Perm (x ∷ xs) p = cons refl (append-Perm xs p)

extended-SameKeys :
    (keys keys' : ℕ → List ForeignKey) (k : ℕ) (ts : List Table)
    → ((j : ℕ) → Permᴰ (keys j) (keys' j))
    → Pairs SameKeys (extended keys k ts) (extended keys' k ts)
extended-SameKeys keys keys' k [] p = tt
extended-SameKeys keys keys' k (t ∷ ts) p =
    ((append-Perm t.foreign_keys (p k), refl), extended-SameKeys keys keys' (suc k) ts p)

pub All-Perm : (P : Text → Type 0) {xs ys : List Text} → Permᴰ xs ys → All P xs → All P ys
All-Perm P nil h = tt
All-Perm P (cons e p) (h, hs) = (subst P e h, All-Perm P p hs)
All-Perm P (swap e f) (h, (k, hs)) = (subst P f k, (subst P e h, hs))
All-Perm P (trans p q) h = All-Perm P q (All-Perm P p h)

module _ (index : List (Text × ℕ)) (m : List (Text × ForeignEntry)) where
  -- If the owner of every id that is visited has a table, the loop over the foreign keys never indexes
  -- out of range: it adds to every table the keys that it owns, in the order in which they are visited,
  -- and changes nothing else; visiting the ids in another order gives the same tables, up to the order
  -- of their foreign keys.
  pub attach_foreign-Perm :
      (ids ids' : List Text) (ts : List Table)
      → Permᴰ ids ids'
      → HasOwners index m ts ids
      → (attach_foreign index m ids ts ≡ ok (extended (owned index m ids) 0 ts))
        × (us : List Table) × (attach_foreign index m ids' ts ≡ ok us)
        × Pairs SameKeys (extended (owned index m ids) 0 ts) us
  attach_foreign-Perm ids ids' ts p h = (
    attach_foreign-extended index m ids ts h,
    extended (owned index m ids') 0 ts,
    attach_foreign-extended index m ids' ts (All-Perm _ p h),
    extended-SameKeys (owned index m ids) (owned index m ids') 0 ts (λ j. owned-Perm index m j p),
  )
