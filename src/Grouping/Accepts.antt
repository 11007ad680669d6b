-- ===== src/Grouping/Accepts.antt =====
-- About validateGrouping of query.go: which queries it accepts.
use tiqq.Prelude.{
  Bool, true, false, not, ◌&&◌, ◌||◌, List, [], ◌∷◌, ◌++◌, map, Text, codes, KeySet, has_iff, Elem,
  All, All-append, All-append_left, All-append_right, ok-injective, ap, ◌∙◌, subst, sym,
  if◌then◌else◌, Result, ok, >>_iff, >>=_iff, ↔_trans, ◌≡◌, ◌↔◌, ◌⊎◌, inl, inr, refl, arith,
}
use tiqq.Column.{ColumnRef, id, is_aggregate}
use tiqq.Predicate.{Predicate, predicate_columns}
use tiqq.Validate.{is_nil}
use tiqq.Validate.Scope.{IsPlainColumn}
use tiqq.Grouping.{
  group_keys, any_aggregate, any_predicate_aggregate, require_grouped, require_having_grouped,
  require_all_grouped, validate_grouping,
}

-- All columns of the HAVING predicates.
abbrev pub columns_of : List Predicate → List ColumnRef
columns_of [] = []
columns_of (p ∷ ps) = predicate_columns p ++ columns_of ps

-- A column that a grouped query may use: an aggregate, or one of the groups.
abbrev pub IsGrouped : List ColumnRef → ColumnRef → Type 0
IsGrouped group_by c = (is_aggregate c ≡ true) ⊎ Elem (id c) (map id group_by)

-- All columns that a query shows, filters groups by, or orders by.
abbrev pub used : List ColumnRef → List Predicate → List ColumnRef → List ColumnRef
used projections having order_by = projections ++ (columns_of having ++ order_by)

-- No group is an aggregate; and either there are neither groups nor aggregates, or every used column
-- is an aggregate or a group.
pub record IsGroupable (group_by columns : List ColumnRef) : Type 0 where
  pub plain_groups : All IsPlainColumn group_by
  pub grouped : ((group_by ≡ []) × All IsPlainColumn columns) ⊎ All (IsGrouped group_by) columns

-- the map that the first loop fills
abbrev reached : List ColumnRef → KeySet → KeySet
reached [] seen = seen
reached (c ∷ cs) seen = reached cs (id c ∷ seen)

Elem-reached :
    (k : Text) (cs : List ColumnRef) (seen : KeySet)
    → Elem k (reached cs seen) ↔ (Elem k (map id cs) ⊎ Elem k seen)
Elem-reached k [] seen = ((λ h. inr h), elim [ inl m ↦ absurd m | inr m ↦ m ])
Elem-reached k (c ∷ cs) seen = ground (arith, Elem-reached k cs (id c ∷ seen))

group_keys_iff :
    (cs : List ColumnRef) (seen grouped : KeySet)
    → (group_keys cs seen ≡ ok grouped) ↔ (All IsPlainColumn cs × (reached cs seen ≡ grouped))
unfolding group_keys
group_keys_iff [] seen grouped = ((λ h. (tt, ok-injective h)), λ h. ap ok h.1)
group_keys_iff (c ∷ cs) seen grouped = ground (arith, group_keys_iff cs (id c ∷ seen) grouped)

any_aggregate-append :
    (cs ds : List ColumnRef) → any_aggregate (cs ++ ds) ≡ (any_aggregate cs || any_aggregate ds)
unfolding any_aggregate
any_aggregate-append [] ds = refl
any_aggregate-append (c ∷ cs) ds = ground (arith, any_aggregate-append cs ds)

any_aggregate-columns_of :
    (ps : List Predicate) → any_aggregate (columns_of ps) ≡ any_predicate_aggregate ps
unfolding any_aggregate any_predicate_aggregate
any_aggregate-columns_of [] = refl
any_aggregate-columns_of (p ∷ ps) =
    any_aggregate-append (predicate_columns p) (columns_of ps)
    ∙ ap (λ b. any_aggregate (predicate_columns p) || b) (any_aggregate-columns_of ps)

any_aggregate_iff : (cs : List ColumnRef) → (any_aggregate cs ≡ false) ↔ All IsPlainColumn cs
unfolding any_aggregate
any_aggregate_iff [] = ((λ h. tt), λ h. refl)
any_aggregate_iff (c ∷ cs) = ground (arith, any_aggregate_iff cs)

abbrev HasGroup : KeySet → ColumnRef → Type 0
HasGroup grouped c = (is_aggregate c ≡ true) ⊎ Elem (id c) grouped

require_grouped_iff :
    (clause : Text) (grouped : KeySet) (cs : List ColumnRef)
    → (require_grouped clause grouped cs ≡ ok tt) ↔ All (HasGroup grouped) cs
unfolding require_grouped
require_grouped_iff clause grouped [] = ((λ h. tt), λ h. refl)
require_grouped_iff clause grouped (c ∷ cs) =
    ground (arith, has_iff grouped (id c), require_grouped_iff clause grouped cs)

All-append_iff {ℓ κ} :
    {A : Type ℓ} (P : A → Type κ) (xs ys : List A) → All P (xs ++ ys) ↔ (All P xs × All P ys)
All-append_iff P xs ys = (
  (λ h. (All-append_left P xs ys h, All-append_right P xs ys h)),
  λ h. All-append P xs ys h.0 h.1,
)

require_having_grouped_iff :
    (grouped : KeySet) (ps : List Predicate)
    → (require_having_grouped grouped ps ≡ ok tt) ↔ All (HasGroup grouped) (columns_of ps)
unfolding require_having_grouped
require_having_grouped_iff grouped [] = ((λ h. tt), λ h. refl)
require_having_grouped_iff grouped (p ∷ ps) =
    ↔_trans
      (>>_iff _ _ (require_grouped_iff (codes "HAVING") grouped (predicate_columns p))
        (require_having_grouped_iff grouped ps))
      (let f = All-append_iff (HasGroup grouped) (predicate_columns p) (columns_of ps) in
        (f.1, f.0))

branch_iff :
    {P Q : Type 0} (b : Bool) (group_by : List ColumnRef) (rest : Result (Unit {0}))
    → (b ≡ false) ↔ P
    → (rest ≡ ok tt) ↔ Q
    → ((if not b && is_nil group_by then ok tt else rest) ≡ ok tt) ↔ (((group_by ≡ []) × P) ⊎ Q)
branch_iff false [] rest p q = ((λ h. inl (refl, p.0 refl)), λ h. refl)
branch_iff true [] rest p q = ((λ h. inr (q.0 h)), elim [ inl f ↦ cc (p.1 f.1) | inr g ↦ q.1 g ])
branch_iff true (c ∷ cs) rest p q = ((λ h. inr (q.0 h)), elim [ inl f ↦ cc (f.0) | inr g ↦ q.1 g ])
branch_iff false (c ∷ cs) rest p q = ((λ h. inr (q.0 h)), elim [ inl f ↦ cc (f.0) | inr g ↦ q.1 g ])

module _ (projections : List ColumnRef) (having : List Predicate) (order_by : List ColumnRef) where
  require_all_grouped_iff :
      (grouped : KeySet)
      → (require_all_grouped grouped projections having order_by ≡ ok tt)
        ↔ All (HasGroup grouped) (used projections having order_by)
  unfolding require_all_grouped
  require_all_grouped_iff grouped =
      let f = All-append_iff (HasGroup grouped) projections (columns_of having ++ order_by) in
      let g = All-append_iff (HasGroup grouped) (columns_of having) order_by in
      ↔_trans
        (>>_iff _ _ (require_grouped_iff (codes "SELECT") grouped projections) (
          >>_iff _ _ (require_having_grouped_iff grouped having)
            (require_grouped_iff (codes "ORDER BY") grouped order_by)))
        ((λ h. f.1 (h.0, g.1 h.1)), λ h. let (a, b) = f.0 h in (a, g.0 b))

  has_aggregate-used :
      (any_aggregate projections || any_predicate_aggregate having || any_aggregate order_by)
      ≡ any_aggregate (used projections having order_by)
  has_aggregate-used = ground (
    arith,
    any_aggregate-append projections (columns_of having ++ order_by),
    any_aggregate-append (columns_of having) order_by,
    any_aggregate-columns_of having,
  )

  HasGroup-iff :
      (group_by cs : List ColumnRef)
      → All (HasGroup (reached group_by [])) cs ↔ All (IsGrouped group_by) cs
  HasGroup-iff group_by [] = ((λ h. h), λ h. h)
  HasGroup-iff group_by (c ∷ cs) =
      ground (arith, Elem-reached (id c) group_by [], HasGroup-iff group_by cs)

  -- `validateGrouping` accepts exactly the queries that group by no aggregate and in which either
  -- there is no group and no used column is an aggregate, or every used column is an aggregate or
  -- one of the groups. Used columns are those of SELECT, HAVING and ORDER BY.
  pub validate_grouping_iff :
      (group_by : List ColumnRef)
      → (validate_grouping projections group_by having order_by ≡ ok tt)
        ↔ IsGroupable group_by (used projections having order_by)
  unfolding validate_grouping
  validate_grouping_iff group_by =
      let columns = used projections having order_by in
      let test =
        any_aggregate projections || any_predicate_aggregate having || any_aggregate order_by in
      let i = >>=_iff (group_keys group_by []) _ (λ g.
        branch_iff test group_by (require_all_grouped g projections having order_by)
          (subst (λ b. (b ≡ false) ↔ All IsPlainColumn columns) (sym has_aggregate-used)
            (any_aggregate_iff columns))
          (require_all_grouped_iff g)) in
      (
        (λ h.
            let (g, e, either) = i.0 h in
            let (plain, same) = (group_keys_iff group_by [] g).0 e in
            record {
              plain_groups = plain;
              grouped = elim either [
                | inl free ↦ inl free
                | inr all ↦ inr (
                    (HasGroup-iff group_by columns).0
                      (subst (λ x. All (HasGroup x) columns) (sym same) all))
              ];
            }),
        λ v. i.1 (
          reached group_by [],
          (group_keys_iff group_by [] (reached group_by [])).1 (v.plain_groups, refl),
          elim v.grouped [
            | inl free ↦ inl free
            | inr all ↦ inr ((HasGroup-iff group_by columns).1 all)
          ],
        ),
      )
