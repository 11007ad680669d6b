-- ===== src/Insert/Builds.antt =====
-- About `InsertQuery.Build` of insert.go: when it succeeds.
use tiqq.Prelude.{
  true, false, not, ◌&&◌, List, [], ◌∷◌, Option, none, some, Text, All, ok, Succeeds, >>_iff,
  >>=_iff, fail_if_iff, ok_iff, ↔_trans, ◌≡◌, ◌≢◌, ◌↔◌, ◌⊎◌, inl, inr, refl,
}
use tiqq.Dialect.{Renderer, renderer_for, qualifier}
use tiqq.Column.{InsertValue}
use tiqq.Validate.{is_nil}
use tiqq.Validate.Scope.{Returns, is_nil_iff, validate_returning_iff}
use tiqq.Statement.{Statement}
use tiqq.Insert.{
  InsertQuery, names, first_row, normalize_rows, is_present, assignments_of, render, build,
}
use tiqq.Insert.Rows.{IsRow, normalize_rows-ok, normalize_rows-total}
use tiqq.Insert.Conflict.Accepts.{
  AcceptsConflict, AcceptsDuplicate, validate_conflict_iff, validate_duplicate_key_iff,
}

-- An INSERT that may be built.
pub record IsValid (r : Renderer) (q : InsertQuery) : Type 0 where
  pub dialect : renderer_for q.table ≡ ok r
  pub some_value : first_row q.rows ≢ []
  pub returning : (q.returns ≡ true) → Returns r q.table q.returning
  pub proper_rows : All (IsRow q (names (first_row q.rows))) q.rows
  pub one_clause : (q.conflict ≡ none) ⊎ (assignments_of q.duplicate ≡ [])
  pub accepts_conflict : AcceptsConflict r (qualifier q.table) q.insertable q.unique_keys q.conflict
  pub accepts_duplicate : AcceptsDuplicate (qualifier q.table) q.insertable q.duplicate

one_clause_iff {ℓ κ} :
    {A : Type ℓ} {B : Type κ} (o : Option A) (xs : List B)
    → ((is_present o && not (is_nil xs)) ≡ false) ↔ ((o ≡ none) ⊎ (xs ≡ []))
one_clause_iff none xs = ((λ h. inl refl), λ h. refl)
one_clause_iff (some a) [] = ((λ h. inr refl), λ h. refl)
one_clause_iff (some a) (x ∷ xs) = ((λ h. cc), elim [ inl e ↦ cc e | inr e ↦ cc e ])

-- `InsertQuery.Build` succeeds exactly if the query is valid for a renderer: its table has that
-- renderer, its first row has a value, a requested RETURNING is accepted, every row is acceptable
-- beside the first row's columns, there is no ON CONFLICT clause beside assignments of ON DUPLICATE
-- KEY, and either clause is accepted.
pub insert_build_iff : (q : InsertQuery) → Succeeds (build q) ↔ ((r : Renderer) × IsValid r q)
unfolding build
insert_build_iff q = ((λ (s, h). forth s h), λ (r, v). back r v)
  where
    first : List Text
    first = names (first_row q.rows)

    checks :
        (s : Statement)
        → (build q ≡ ok s) ↔ (
            (r : Renderer) × (renderer_for q.table ≡ ok r)
            × ((first_row q.rows ≢ [])
                × (((q.returns ≡ true) → Returns r q.table q.returning)
                    × ((rows : List (List InsertValue)) × (normalize_rows q first 1 q.rows
                          ≡ ok rows)
                        × (((q.conflict ≡ none) ⊎ (assignments_of q.duplicate ≡ []))
                            × (AcceptsConflict r
                                  (qualifier q.table)
                                  q.insertable
                                  q.unique_keys
                                  q.conflict
                                × (AcceptsDuplicate (qualifier q.table) q.insertable q.duplicate
                                    × (render r q rows ≡ s))))))))
    checks s = >>=_iff (renderer_for q.table) _ (λ r.
        >>_iff _ _ (↔_trans (fail_if_iff _ _) (is_nil_iff (first_row q.rows))) (
          >>_iff _ _ (validate_returning_iff r q.table q.returning q.returns) (
            >>=_iff (normalize_rows q first 1 q.rows) _ (λ rows.
              >>_iff _ _
                (↔_trans (fail_if_iff _ _) (one_clause_iff q.conflict (assignments_of q.duplicate)))
                (>>_iff _ _
                  (validate_conflict_iff r (qualifier q.table) q.insertable q.unique_keys
                    q.conflict)
                  (>>_iff _ _
                    (validate_duplicate_key_iff (qualifier q.table) q.insertable q.duplicate)
                    (ok_iff {a = render r q rows} {b = s})))))))

    forth : (s : Statement) → build q ≡ ok s → (r : Renderer) × IsValid r q
    forth s h =
        let (r, e, (nonempty, (ret, (rows, normal, (one, (c, (d, same))))))) = (checks s).0 h in
        (
          r,
          record {
            dialect = e;
            some_value = nonempty;
            returning = ret;
            proper_rows = (normalize_rows-ok q first 1 q.rows rows normal).0;
            one_clause = one;
            accepts_conflict = c;
            accepts_duplicate = d;
          },
        )

    back : (r : Renderer) → IsValid r q → Succeeds (build q)
    back r v =
        let (rows, normal) = normalize_rows-total q first 1 q.rows v.proper_rows in
        (
          render r q rows,
          (checks (render r q rows)).1 (
            r,
            v.dialect,
            (
              v.some_value,
              (
                v.returning,
                (rows, normal, (v.one_clause, (v.accepts_conflict, (v.accepts_duplicate, refl)))),
              ),
            ),
          ),
        )
