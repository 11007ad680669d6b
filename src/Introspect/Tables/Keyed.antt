-- ===== src/Introspect/Tables/Keyed.antt =====
-- About the loops over keys of introspect/postgres/postgres.go and introspect/mysql/mysql.go, as
-- changes of the tables at given indices.
use mathlib.Core.List.Permᴰ
use mathlib.Core.List.Permᴰ.{Permᴰ, nil, cons, swap, trans}
use tiqq.Prelude.{
  ℕ, zero, suc, ◌+◌, ◌≤◌, ◌<◌, Bool, true, false, List, [], ◌∷◌, ◌++◌, append_assoc, append-nil,
  Option, none, some, length, ◌==◌, ==_iff, if◌then◌else◌, Bool-cases, if_true, if_false, All,
  Result, ok, ◌>>=◌, ◌≡◌, inl, inr, refl, sym, ap, subst, ◌∙◌, arith,
}
use tiqq.Schema.{Key, Table}
use tiqq.Introspect.{Pairs}
use tiqq.Introspect.Tables.{update_at, set_primary, append_unique}
use tiqq.Introspect.Tables.Attached.{less-==, more-==}

-- A key with the index of its table; the Boolean tells a primary key.
pub record Placed : Type 0 where
  pub place : ℕ
  pub is_primary : Bool
  pub key : Key

abbrev pub change : Placed → Table → Table
change p = if p.is_primary then set_primary p.key else append_unique p.key

abbrev pub attach_each : List Placed → List Table → Result (List Table)
attach_each [] ts = ok ts
attach_each (p ∷ ps) ts =
    update_at p.place (change p) ts >>= (λ (us : List Table). attach_each ps us)

-- A function of the index and the table, at each table.
abbrev pub at_each : (ℕ → Table → Table) → ℕ → List Table → List Table
at_each f k [] = []
at_each f k (t ∷ ts) = f k t ∷ at_each f (suc k) ts

-- What the elements contribute, in their order.
abbrev prepend : Option Key → List Key → List Key
prepend none ks = ks
prepend (some k) ks = k ∷ ks

abbrev gather : (Placed → Option Key) → List Placed → List Key
gather f [] = []
gather f (p ∷ ps) = prepend (f p) (gather f ps)

-- The unique keys, and the primary keys, that belong to the table at an index.
abbrev pub uniques : ℕ → List Placed → List Key
uniques j = gather (λ p. if p.place == j then (if p.is_primary then none else some p.key) else none)

abbrev pub primaries : ℕ → List Placed → List Key
primaries j =
    gather (λ p. if p.place == j then (if p.is_primary then some p.key else none) else none)

-- The last key of a list, or what was there before.
abbrev pub last_or : Option Key → List Key → Option Key
last_or o [] = o
last_or o (k ∷ ks) = last_or (some k) ks

-- The table with all its keys.
abbrev pub keyed : List Placed → ℕ → Table → Table
keyed ps j t = record t {
  primary_key = last_or t.primary_key (primaries j ps);
  unique_keys = t.unique_keys ++ uniques j ps;
}

at_each_same :
    (f g : ℕ → Table → Table) (k : ℕ) (ts : List Table)
    → ((j : ℕ) (t : Table) → k ≤ j → f j t ≡ g j t)
    → at_each f k ts ≡ at_each g k ts
at_each_same f g k [] h = refl
at_each_same f g k (t ∷ ts) h =
    cc (h k t (omega arith), at_each_same f g (suc k) ts (λ j u l. h j u (omega arith)))

abbrev behind : (ℕ → Table → Table) → ℕ → (Table → Table) → ℕ → Table → Table
behind f p g j t = if p == j then f j (g t) else f j t

-- A change at one index in front of changes at each.
update_at-at_each :
    (g : Table → Table) (f : ℕ → Table → Table) (i k p : ℕ) (ts : List Table)
    → p ≡ k + i
    → i < length ts
    → (us : List Table) × (update_at i g ts ≡ ok us)
      × (length us ≡ length ts)
      × (at_each f k us ≡ at_each (behind f p g) k ts)
unfolding update_at
update_at-at_each g f i k p [] e h = elim h [ ]
update_at-at_each g f zero k p (t ∷ ts) e h = (
  g t ∷ ts,
  refl,
  refl,
  cc (
    if_true ((==_iff p k).1 (omega arith)) (f k (g t)) (f k t),
    at_each_same f (behind f p g) (suc k) ts
        (λ j u l. sym (if_false (less-== p j (omega arith)) _ _)),
  ),
)
update_at-at_each g f (suc i) k p (t ∷ ts) e h =
    let (us, u, l, q) = update_at-at_each g f i (suc k) p ts (omega arith) (omega arith) in
    (t ∷ us, rw u refl, ap suc l, cc (if_false (more-== p k (omega arith)) (f k (g t)) (f k t), q))

keyed_nothing : (k : ℕ) (ts : List Table) → at_each (keyed []) k ts ≡ ts
keyed_nothing k [] = refl
keyed_nothing k (t ∷ ts) = cc (append-nil t.unique_keys, keyed_nothing (suc k) ts)

with_unique :
    (t : Table) {ks ls : List Key}
    → ks ≡ ls
    → record t { unique_keys = ks } ≡ record t { unique_keys = ls }
with_unique t e = ap (λ (ks : List Key). record t { unique_keys = ks }) e

placed-cons :
    (i : ℕ) (b : Bool) (k : Key) (ps : List Placed) (j : ℕ) (t : Table)
    → behind (keyed ps) i (change (record { place = i; is_primary = b; key = k })) j t
      ≡ keyed (record { place = i; is_primary = b; key = k } ∷ ps) j t
placed-cons i true k ps j t = elim (Bool-cases (i == j)) [ inl e ↦ rw e refl | inr d ↦ rw d refl ]
placed-cons i false k ps j t = elim (Bool-cases (i == j)) [
  | inl e ↦ rw e (
      with_unique (record t { primary_key = last_or t.primary_key (primaries j ps) })
        (append_assoc t.unique_keys (k ∷ []) (uniques j ps)))
  | inr d ↦ rw d refl
]

-- One more key in front.
keyed-cons :
    (p : Placed) (ps : List Placed) (j : ℕ) (t : Table)
    → behind (keyed ps) p.place (change p) j t ≡ keyed (p ∷ ps) j t
keyed-cons p ps j t = placed-cons p.place p.is_primary p.key ps j t

pub attach_each-keyed :
    (ps : List Placed) (ts : List Table)
    → All (λ p. p.place < length ts) ps
    → attach_each ps ts ≡ ok (at_each (keyed ps) 0 ts)
attach_each-keyed [] ts h = ap ok (sym (keyed_nothing 0 ts))
attach_each-keyed (p ∷ ps) ts (h, hs) =
    let (us, u, l, e) =
      update_at-at_each (change p) (keyed ps) p.place 0 p.place ts (omega arith) h in
    ap (λ r. r >>= (λ (vs : List Table). attach_each ps vs)) u
    ∙ attach_each-keyed ps us (subst (λ (n : ℕ). All (λ q. q.place < n) ps) (sym l) hs)
    ∙ ap ok (
        e
        ∙ at_each_same (behind (keyed ps) p.place (change p)) (keyed (p ∷ ps)) 0 ts
            (λ j t z. keyed-cons p ps j t))

prepend_swap :
    (a b : Option Key) (ks : List Key) → Permᴰ (prepend a (prepend b ks)) (prepend b (prepend a ks))
prepend_swap none b ks = Permᴰ.refl _
prepend_swap (some k) none ks = Permᴰ.refl _
prepend_swap (some k) (some l) ks = swap refl refl

prepend-Perm :
    (a : Option Key) {ks ls : List Key} → Permᴰ ks ls → Permᴰ (prepend a ks) (prepend a ls)
prepend-Perm none p = p
prepend-Perm (some k) p = cons refl p

gather-Perm :
    (f : Placed → Option Key) {ps qs : List Placed}
    → Permᴰ ps qs
    → Permᴰ (gather f ps) (gather f qs)
gather-Perm f nil = nil
gather-Perm f (cons {a} {b} {l₁} {l₂} e p) =
    subst (λ c. Permᴰ (gather f (a ∷ l₁)) (gather f (c ∷ l₂))) e
      (prepend-Perm (f a) (gather-Perm f p))
gather-Perm f (swap {a} {b} {a'} {b'} {l} e g) =
    subst (λ c. Permᴰ (gather f (a ∷ b ∷ l)) (gather f (c ∷ b' ∷ l))) g
      (subst (λ c. Permᴰ (gather f (a ∷ b ∷ l)) (gather f (b ∷ c ∷ l))) e
        (prepend_swap (f a) (f b) (gather f l)))
gather-Perm f (trans p q) = trans (gather-Perm f p) (gather-Perm f q)

length-Perm : {ks ls : List Key} → Permᴰ ks ls → length ks ≡ length ls
length-Perm nil = refl
length-Perm (cons e p) = ap suc (length-Perm p)
length-Perm (swap e f) = refl
length-Perm (trans p q) = length-Perm p ∙ length-Perm q

-- A list of at most one key has one order.
short-Perm : {ks ls : List Key} → Permᴰ ks ls → length ks ≤ 1 → ks ≡ ls
short-Perm nil h = refl
short-Perm (cons e p) h = cc (e, short-Perm p (omega arith))
short-Perm (swap e f) h = absurd (omega arith)
short-Perm (trans p q) h = short-Perm p h ∙ short-Perm q (omega (arith, length-Perm p))

-- Two tables that differ only in the order of their unique keys.
abbrev pub SameUnique : Table → Table → Type 0
SameUnique t u = Permᴰ t.unique_keys u.unique_keys × (u ≡ record t { unique_keys = u.unique_keys })

append-Perm : (xs : List Key) {ys zs : List Key} → Permᴰ ys zs → Permᴰ (xs ++ ys) (xs ++ zs)
append-Perm [] p = p
append-Perm (x ∷ xs) p = cons refl (append-Perm xs p)

with_primary :
    (t : Table) {ks ls us : List Key}
    → ks ≡ ls
    → record t { primary_key = last_or t.primary_key ls; unique_keys = us }
      ≡ record t { primary_key = last_or t.primary_key ks; unique_keys = us }
with_primary t {us = us} e =
    ap (λ (ms : List Key). record t { primary_key = last_or t.primary_key ms; unique_keys = us })
      (sym e)

pub keyed-SameUnique :
    (ps qs : List Placed) (k : ℕ) (ts : List Table)
    → Permᴰ ps qs
    → ((j : ℕ) → length (primaries j ps) ≤ 1)
    → Pairs SameUnique (at_each (keyed ps) k ts) (at_each (keyed qs) k ts)
keyed-SameUnique ps qs k [] p h = tt
keyed-SameUnique ps qs k (t ∷ ts) p h = (
  (
    append-Perm t.unique_keys (gather-Perm _ p),
    with_primary t (short-Perm (gather-Perm _ p) (h k)),
  ),
  keyed-SameUnique ps qs (suc k) ts p h,
)
