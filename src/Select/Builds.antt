-- ===== src/Select/Builds.antt =====
-- About `Query.Build` of query.go: when it succeeds.
use tiqq.Prelude.{
  Bool, true, false, not, ◌&&◌, List, [], ◌∷◌, map, Option, codes, KeySet, has_iff, Elem, Distinct,
  Fresh, Fresh-iff, equal, All, Bool-cases, ok, errorf, fail_if, fail_if_iff, >>_iff, >>=_iff,
  ok_iff, ↔_trans, ◌≡◌, ◌≢◌, ◌↔◌, ◌⊎◌, inl, inr, refl, subst, sym, ap, ◌∙◌, arith,
}
use tiqq.Value.{ℤ}
use tiqq.Dialect.{
  Renderer, postgres_renderer, mysql_renderer, sqlite_renderer, name, renderer_for, qualifier,
}
use tiqq.Column.{ColumnRef, id}
use tiqq.Predicate.{Predicate, predicate_columns}
use tiqq.Validate.Scope.{InScope, Fits, is_nil_iff, validate_columns_iff, validate_predicates_iff}
use tiqq.Grouping.Accepts.{used, IsGroupable, validate_grouping_iff}
use tiqq.Statement.{Statement}
use tiqq.Source.{TableSource}
use tiqq.Select.{
  Query, same_dialect, query_renderer, distinct_references, qualifiers, order_columns,
  validate_having, ordered_columns_selected, validate_distinct, is_negative_option, is_some,
  validate_limits, render_from, build,
}

-- OFFSET without LIMIT is for PostgreSQL alone, and neither is negative.
pub record HasLimits (r : Renderer) (limit offset : Option ℤ) : Type 0 where
  pub limit_sign : is_negative_option limit ≡ false
  pub offset_sign : is_negative_option offset ≡ false
  pub offset_alone : (is_some offset ≡ true) → (is_some limit ≡ true) ⊎ (r ≡ postgres_renderer)

-- What `Build` checks before it writes the joins.
pub record IsValid (r : Renderer) (q : Query) : Type 0 where
  pub some_projection : q.projections ≢ []
  pub some_table : q.from.tables ≢ []
  pub one_dialect : All (λ t. renderer_for t.ref ≡ ok r) q.from.tables
  pub distinct_tables : Distinct (qualifiers q.from.tables)
  pub selected : All (InScope (qualifiers q.from.tables)) q.projections
  pub fits : All (Fits (qualifiers q.from.tables)) q.predicates
  pub groups : All (InScope (qualifiers q.from.tables)) q.group_by
  pub ordered : All (InScope (qualifiers q.from.tables)) (order_columns q.order_by)
  pub filtered : All (λ p. All (InScope (qualifiers q.from.tables)) (predicate_columns p)) q.having
  pub groupable : IsGroupable q.group_by (used q.projections q.having (order_columns q.order_by))
  pub distinct_order :
      (q.distinct ≡ true) → All (λ c. Elem (id c) (map id q.projections)) (order_columns q.order_by)
  pub limits : HasLimits r q.limit q.offset

name_iff : (r o : Renderer) → (not (equal (name r) (name o)) ≡ false) ↔ (r ≡ o)
unfolding name equal codes
name_iff postgres_renderer postgres_renderer = ((λ h. refl), λ h. refl)
name_iff postgres_renderer mysql_renderer = ((λ h. cc), λ h. cc)
name_iff postgres_renderer sqlite_renderer = ((λ h. cc), λ h. cc)
name_iff mysql_renderer postgres_renderer = ((λ h. cc), λ h. cc)
name_iff mysql_renderer mysql_renderer = ((λ h. refl), λ h. refl)
name_iff mysql_renderer sqlite_renderer = ((λ h. cc), λ h. cc)
name_iff sqlite_renderer postgres_renderer = ((λ h. cc), λ h. cc)
name_iff sqlite_renderer mysql_renderer = ((λ h. cc), λ h. cc)
name_iff sqlite_renderer sqlite_renderer = ((λ h. refl), λ h. refl)

postgres_iff :
    (r : Renderer) → (not (equal (name r) (codes "postgresql")) ≡ false) ↔ (r ≡ postgres_renderer)
unfolding name equal codes
postgres_iff postgres_renderer = ((λ h. refl), λ h. refl)
postgres_iff mysql_renderer = ((λ h. cc), λ h. cc)
postgres_iff sqlite_renderer = ((λ h. cc), λ h. cc)

same_dialect_iff :
    (r : Renderer) (ts : List TableSource)
    → (same_dialect r ts ≡ ok tt) ↔ All (λ t. renderer_for t.ref ≡ ok r) ts
unfolding same_dialect
same_dialect_iff r [] = ((λ h. tt), λ h. refl)
same_dialect_iff r (t ∷ ts) =
    let i =
      >>=_iff (renderer_for t.ref) _
        (λ o. >>_iff _ _ (↔_trans (fail_if_iff _ _) (name_iff r o)) (same_dialect_iff r ts)) in
    (
      (λ h. let (o, e, (same, rest)) = i.0 h in (e ∙ ap ok (sym same), rest)),
      λ (e, rest). i.1 (r, e, (refl, rest)),
    )

query_renderer_iff :
    (r : Renderer) (ts : List TableSource)
    → (query_renderer ts ≡ ok r) ↔ ((ts ≢ []) × All (λ t. renderer_for t.ref ≡ ok r) ts)
unfolding query_renderer
query_renderer_iff r [] = ((λ h. cc), λ h. absurd (h.0 refl))
query_renderer_iff r (t ∷ ts) =
    let i =
      >>=_iff (renderer_for t.ref) _
        (λ o. >>_iff _ _ (same_dialect_iff o ts) (ok_iff {a = o} {b = r})) in
    (
      (λ h.
          let (o, e, (rest, same)) = i.0 h in
          (
            (λ g. cc),
            (e ∙ ap ok same, subst (λ x. All (λ t. renderer_for t.ref ≡ ok x) ts) same rest),
          )),
      λ (_, (e, rest)). i.1 (r, e, (rest, refl)),
    )

distinct_references_iff :
    (seen : KeySet) (ts : List TableSource)
    → (distinct_references seen ts ≡ ok tt) ↔ Fresh seen (qualifiers ts)
unfolding distinct_references
distinct_references_iff seen [] = ((λ h. tt), λ h. refl)
distinct_references_iff seen (t ∷ ts) =
    ground
      (arith, has_iff seen (qualifier t.ref), distinct_references_iff (qualifier t.ref ∷ seen) ts)

validate_having_iff :
    (ps : List Predicate) (allowed : KeySet)
    → (validate_having ps allowed ≡ ok tt)
      ↔ All (λ p. All (InScope allowed) (predicate_columns p)) ps
unfolding validate_having
validate_having_iff [] allowed = ((λ h. tt), λ h. refl)
validate_having_iff (p ∷ ps) allowed =
    >>_iff _ _ (validate_columns_iff (codes "HAVING") (predicate_columns p) allowed)
      (validate_having_iff ps allowed)

ordered_columns_selected_iff :
    (selected : KeySet) (cs : List ColumnRef)
    → (ordered_columns_selected selected cs ≡ ok tt) ↔ All (λ c. Elem (id c) selected) cs
unfolding ordered_columns_selected
ordered_columns_selected_iff selected [] = ((λ h. tt), λ h. refl)
ordered_columns_selected_iff selected (c ∷ cs) =
    ground (arith, has_iff selected (id c), ordered_columns_selected_iff selected cs)

validate_distinct_iff :
    (q : Query)
    → (validate_distinct q ≡ ok tt) ↔ (
        (q.distinct ≡ true)
        → All (λ c. Elem (id c) (map id q.projections)) (order_columns q.order_by))
unfolding validate_distinct
validate_distinct_iff q = elim (Bool-cases q.distinct) [
  | inl on ↦ rw on (
      let i = ordered_columns_selected_iff (map id q.projections) (order_columns q.order_by) in
      ((λ h _. i.0 h), λ h. i.1 (h refl)))
  | inr off ↦ rw off ((λ h e. cc), λ h. refl)
]

validate_limits_iff :
    (r : Renderer) (q : Query) → (validate_limits r q ≡ ok tt) ↔ HasLimits r q.limit q.offset
unfolding validate_limits
validate_limits_iff r q =
    let i =
      >>_iff
        (fail_if (is_negative_option q.limit) (errorf (codes "tiqq: LIMIT must not be negative"))) _
        (fail_if_iff _ _)
        (>>_iff
          (fail_if (is_negative_option q.offset)
            (errorf (codes "tiqq: OFFSET must not be negative")))
          _ (fail_if_iff _ _)
          (↔_trans (fail_if_iff _ _) (offset_alone_iff (is_some q.offset) (is_some q.limit)))) in
    (
      (λ h.
          let (a, (b, c)) = i.0 h in record { limit_sign = a; offset_sign = b; offset_alone = c }),
      λ v. i.1 (v.limit_sign, (v.offset_sign, v.offset_alone)),
    )
  where
    offset_alone_iff :
        (o l : Bool)
        → ((o && not l && not (equal (name r) (codes "postgresql"))) ≡ false)
          ↔ ((o ≡ true) → (l ≡ true) ⊎ (r ≡ postgres_renderer))
    offset_alone_iff false l = ((λ h e. cc), λ h. refl)
    offset_alone_iff true true = ((λ h e. inl refl), λ h. refl)
    offset_alone_iff true false = (
      (λ h e. inr ((postgres_iff r).0 h)),
      λ h. elim (h refl) [ inl e ↦ cc | inr e ↦ (postgres_iff r).1 e ],
    )

-- `Query.Build` returns a statement exactly if the query is valid for a renderer and the join loop
-- of that renderer succeeds and gives this statement. Valid: it has a projection and a table, all
-- tables have that renderer and different names, every clause names columns of the tables, WHERE has
-- no aggregate, the query is groupable, a DISTINCT query is ordered by selected columns, and the
-- limits are not negative, with OFFSET alone on PostgreSQL only.
pub select_build_iff :
    (q : Query) (s : Statement)
    → (build q ≡ ok s) ↔ ((r : Renderer) × IsValid r q × (render_from r q q.from.tables ≡ ok s))
unfolding build
select_build_iff q s =
    let scope = qualifiers q.from.tables in
    let i = >>_iff _ _ (↔_trans (fail_if_iff _ _) (is_nil_iff q.projections)) (
      >>_iff _ _ (↔_trans (fail_if_iff _ _) (is_nil_iff q.from.tables)) (
        >>=_iff (query_renderer q.from.tables) _ (λ r.
          >>_iff _ _ (↔_trans (distinct_references_iff [] q.from.tables) (Fresh-iff scope)) (
            >>_iff _ _ (validate_columns_iff (codes "SELECT") q.projections scope) (
              >>_iff _ _ (validate_predicates_iff (codes "WHERE") q.predicates scope) (
                >>_iff _ _ (validate_columns_iff (codes "GROUP BY") q.group_by scope) (
                  >>_iff _ _
                    (validate_columns_iff (codes "ORDER BY") (order_columns q.order_by) scope)
                    (>>_iff _ _ (validate_having_iff q.having scope) (
                      >>_iff _ _
                        (validate_grouping_iff q.projections q.having (order_columns q.order_by)
                          q.group_by)
                        (>>_iff _ _ (validate_distinct_iff q) (
                          >>_iff _ (render_from r q q.from.tables) {b = s} (validate_limits_iff r q)
                            ((λ h. h), λ h. h)))))))))))) in
    (
      (λ h.
          let (
            cols,
            (
              tabs,
              (r, e, (dist, (sel, (fit, (grp, (ord, (hav, (grouping, (order, (lims, rest)))))))))),
            ),
          ) =
            i.0 h in
          (
            r,
            record {
              some_projection = cols;
              some_table = tabs;
              one_dialect = ((query_renderer_iff r q.from.tables).0 e).1;
              distinct_tables = dist;
              selected = sel;
              fits = fit;
              groups = grp;
              ordered = ord;
              filtered = hav;
              groupable = grouping;
              distinct_order = order;
              limits = lims;
            },
            rest,
          )),
      λ (r, v, rest). i.1 (
        v.some_projection,
        (
          v.some_table,
          (
            r,
            (query_renderer_iff r q.from.tables).1 (v.some_table, v.one_dialect),
            (
              v.distinct_tables,
              (
                v.selected,
                (
                  v.fits,
                  (
                    v.groups,
                    (v.ordered, (v.filtered, (v.groupable, (v.distinct_order, (v.limits, rest))))),
                  ),
                ),
              ),
            ),
          ),
        ),
      ),
    )
