-- ===== src/Codegen/Generate/Order.antt =====
-- About the order of the tables in Generate of codegen/generate.go.
use mathlib.Core.List.Permᴰ.{Permᴰ, nil, cons, swap, trans}
use tiqq.Prelude.{
  ℕ, Bool, true, false, ◌||◌, List, [], ◌∷◌, map, Text, text_before, Bool-cases, if_true, if_false,
  insert_sorted, sort, Elem, Distinct, Result, ◌≡◌, ◌≢◌, inl, inr, refl, sym, ap, subst, ◌∙◌, arith,
}
use tiqq.Schema.{Table, Schema}
use tiqq.Codegen.Words.{Unicode}
use tiqq.Codegen.Generate.{by_name, generate}

text_before_total : (s t : Text) → (text_before s t || text_before t s) ≡ true
unfolding text_before
text_before_total [] t = refl
text_before_total (c ∷ s) [] = refl
text_before_total (c ∷ s) (d ∷ t) = ground (arith, text_before_total s t)

text_before_antisym : (s t : Text) → text_before s t ≡ true → text_before t s ≡ true → s ≡ t
unfolding text_before
text_before_antisym [] [] h k = refl
text_before_antisym [] (d ∷ t) h k = cc k
text_before_antisym (c ∷ s) [] h k = cc h
text_before_antisym (c ∷ s) (d ∷ t) h k = ground (arith, text_before_antisym s t)

text_before_trans :
    (s t u : Text) → text_before s t ≡ true → text_before t u ≡ true → text_before s u ≡ true
unfolding text_before
text_before_trans [] t u h k = refl
text_before_trans (c ∷ s) [] u h k = cc h
text_before_trans (c ∷ s) (d ∷ t) [] h k = cc k
text_before_trans (c ∷ s) (d ∷ t) (e ∷ u) h k = ground (arith, text_before_trans s t u)

-- Two tables of different names are sorted in one way.
data Sorted (t u : Table) : Type 0 where
  in_front : by_name t u ≡ true → by_name u t ≡ false → Sorted t u
  behind : by_name t u ≡ false → by_name u t ≡ true → Sorted t u

not_neither : (a b : Bool) → (a || b) ≡ true → a ≡ false → ¬ (b ≡ false)
not_neither true b h p q = cc p
not_neither false b h p q = cc (sym h ∙ q)

total-Sorted : (t u : Table) → t.table_name ≢ u.table_name → Sorted t u
total-Sorted t u h = elim (Bool-cases (by_name t u)) [
  | inl p ↦ elim (Bool-cases (by_name u t)) [
    | inl q ↦ absurd (h (text_before_antisym t.table_name u.table_name p q))
    | inr q ↦ in_front p q
  ]
  | inr p ↦ elim (Bool-cases (by_name u t)) [
    | inl q ↦ behind p q
    | inr q ↦ absurd (not_neither _ _ (text_before_total t.table_name u.table_name) p q)
  ]
]

insert_sorted_front :
    (t u : Table) (xs : List Table)
    → by_name t u ≡ true
    → by_name u t ≡ false
    → insert_sorted by_name t (insert_sorted by_name u xs)
      ≡ insert_sorted by_name u (insert_sorted by_name t xs)
unfolding insert_sorted
insert_sorted_front t u [] p q = rw (p, q) refl
insert_sorted_front t u (v ∷ xs) p q = elim (Bool-cases (by_name u v)) [
  | inl l ↦
      rw (l, text_before_trans t.table_name u.table_name v.table_name p l, p, q)
        (ap (λ ys. t ∷ ys) (sym (if_true l _ _)))
  | inr l ↦ elim (Bool-cases (by_name t v)) [
    | inl k ↦ rw (l, k, q) (ap (λ ys. t ∷ ys) (sym (if_false l _ _)))
    | inr k ↦ rw (l, k) (rw l (ap (λ ys. v ∷ ys) (insert_sorted_front t u xs p q)))
  ]
]

insert_sorted_comm :
    (t u : Table) (xs : List Table)
    → Sorted t u
    → insert_sorted by_name t (insert_sorted by_name u xs)
      ≡ insert_sorted by_name u (insert_sorted by_name t xs)
insert_sorted_comm t u xs (in_front p q) = insert_sorted_front t u xs p q
insert_sorted_comm t u xs (behind p q) = sym (insert_sorted_front u t xs q p)

abbrev name_of : Table → Text
name_of t = t.table_name

-- No two tables of a list have one name.
abbrev pub DifferentNames : List Table → Type 0
DifferentNames ts = Distinct (map name_of ts)

Elem-Perm :
    {ts us : List Table}
    → Permᴰ ts us
    → (n : Text) → Elem n (map name_of us)
    → Elem n (map name_of ts)
Elem-Perm nil n m = m
Elem-Perm (cons e p) n (inl q) = inl (ap name_of e ∙ q)
Elem-Perm (cons e p) n (inr m) = inr (Elem-Perm p n m)
Elem-Perm (swap e f) n (inl q) = inr (inl (ap name_of f ∙ q))
Elem-Perm (swap e f) n (inr (inl q)) = inl (ap name_of e ∙ q)
Elem-Perm (swap e f) n (inr (inr m)) = inr (inr m)
Elem-Perm (trans p q) n m = Elem-Perm p n (Elem-Perm q n m)

DifferentNames-Perm : {ts us : List Table} → Permᴰ ts us → DifferentNames ts → DifferentNames us
DifferentNames-Perm nil d = d
DifferentNames-Perm (cons {l₂ = l} e p) (h, d) = (
  (λ m. h (Elem-Perm p _ (subst (λ n. Elem n (map name_of l)) (sym (ap name_of e)) m))),
  DifferentNames-Perm p d,
)
DifferentNames-Perm (swap {l = l} e f) (h, (k, d)) = (
  (λ m. elim m [
    | inl q ↦ h (inl (ap name_of f ∙ sym q ∙ sym (ap name_of e)))
    | inr r ↦ k (subst (λ n. Elem n (map name_of l)) (sym (ap name_of f)) r)
  ]),
  ((λ m. h (inr (subst (λ n. Elem n (map name_of l)) (sym (ap name_of e)) m))), d),
)
DifferentNames-Perm (trans p q) d = DifferentNames-Perm q (DifferentNames-Perm p d)

sort_tables-Perm :
    {ts us : List Table} → Permᴰ ts us → DifferentNames ts → sort by_name ts ≡ sort by_name us
unfolding sort
sort_tables-Perm nil d = refl
sort_tables-Perm (cons {b = b} e p) (h, d) = cc (e, sort_tables-Perm p d)
sort_tables-Perm (swap {a} {b} {l = l} e f) (h, d) =
    cc (e, f, insert_sorted_comm a b (sort by_name l) (total-Sorted a b (λ q. h (inl (sym q)))))
sort_tables-Perm (trans p q) d = sort_tables-Perm p d ∙ sort_tables-Perm q (DifferentNames-Perm p d)

module _ (unicode : Unicode) (quote : Text → Text) (format : Text → Result (List ℕ)) where
  -- If no two tables have one name, Generate makes the same text, or the same error, of every schema
  -- of that dialect with the same tables in another order.
  pub generate-Perm :
      (s s' : Schema) (package_name : Text)
      → s.dialect ≡ s'.dialect
      → Permᴰ s.tables s'.tables
      → DifferentNames s.tables
      → generate unicode quote format s package_name ≡ generate unicode quote format s' package_name
  unfolding generate
  generate-Perm s s' package_name e p d = cc (e, sort_tables-Perm p d)
