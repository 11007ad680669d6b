-- ===== src/Update/Builds.antt =====
-- About `UpdateQuery.Build` of update.go: when it succeeds, and what it builds.
use tiqq.Prelude.{
  ℕ, ◌+◌, Bool, true, false, List, [], ◌∷◌, map, codes, length, has_iff, KeySet, Distinct, Fresh,
  Fresh-iff, All, if◌then◌else◌, ok, >>_iff, fail_if_iff, >>=_iff, ok_iff, ok-injective, ↔_trans,
  ◌≡◌, ◌≢◌, ◌↔◌, ◌⊎◌, refl, subst, ◌∙◌, sym, arith,
}
use tiqq.Dialect.{Renderer, renderer_for, qualifier}
use tiqq.Column.{Assignment, id, column_name}
use tiqq.Predicate.{render_clause}
use tiqq.Predicate.Params.{
  words, HasKeywords, Numbered, render_clause-Numbered, Reads-render_table, literal,
  Reads-append_nil, Reads-numbered,
}
use tiqq.Validate.Scope.{
  guarded_iff, is_nil_iff, InScope, Fits, Returns, validate_columns_iff, validate_predicates_iff,
  validate_returning_iff, Reads-render_returning,
}
use tiqq.Scan.{
  Reads, Reads-nil, Reads-append, Reads-quote_identifier, Reads-placeholder, params, numbered,
  params-Reads,
}
use tiqq.Statement.{Statement, new_statement}
use tiqq.Update.{
  UpdateQuery, build, render, reject_incoming, reject_repeated, render_assignments,
  assigned_columns,
}

abbrev pub IsOwnValue : Assignment → Type 0
IsOwnValue a = (a.excluded ≡ false) × (a.inserted ≡ false)

-- An UPDATE that may be built.
pub record IsValid (r : Renderer) (q : UpdateQuery) : Type 0 where
  pub dialect : renderer_for q.table.ref ≡ ok r
  pub some_assignment : q.assignments ≢ []
  pub guarded : (q.predicates ≢ []) ⊎ (q.all_rows ≡ true)
  pub returning : (q.returns ≡ true) → Returns r q.table.ref q.returning
  pub own_values : All IsOwnValue q.assignments
  pub in_scope : All (InScope (qualifier q.table.ref ∷ [])) (assigned_columns q.assignments)
  pub once : Distinct (map id (assigned_columns q.assignments))
  pub fits : All (Fits (qualifier q.table.ref ∷ [])) q.predicates

reject_incoming_iff : (xs : List Assignment) → (reject_incoming xs ≡ ok tt) ↔ All IsOwnValue xs
unfolding reject_incoming
reject_incoming_iff [] = ((λ h. tt), λ h. refl)
reject_incoming_iff (a ∷ xs) = ground (arith, reject_incoming_iff xs)

reject_repeated_iff :
    (seen : KeySet) (xs : List Assignment)
    → (reject_repeated seen xs ≡ ok tt) ↔ Fresh seen (map id (assigned_columns xs))
unfolding reject_repeated
reject_repeated_iff seen [] = ((λ h. tt), λ h. refl)
reject_repeated_iff seen (a ∷ xs) =
    ground (arith, has_iff seen (id a.column), reject_repeated_iff (id a.column ∷ seen) xs)

-- `UpdateQuery.Build` returns a statement exactly if the query is valid for a renderer and the
-- statement is what that renderer writes. Valid: its table has that renderer, it has an assignment,
-- it has a predicate or AllRows, a requested RETURNING is accepted, no assignment takes a value of an
-- incoming row, the assigned columns are columns of the table and no two of them have one id, and its
-- predicates name plain columns of the table.
pub update_build_iff :
    (q : UpdateQuery) (s : Statement)
    → (build q ≡ ok s) ↔ ((r : Renderer) × IsValid r q × (render r q ≡ s))
unfolding build
update_build_iff q s =
    let scope = qualifier q.table.ref ∷ [] in
    let i = >>=_iff (renderer_for q.table.ref) _ (λ r.
      >>_iff _ _ (↔_trans (fail_if_iff _ _) (is_nil_iff q.assignments)) (
        >>_iff _ _ (↔_trans (fail_if_iff _ _) (guarded_iff q.predicates q.all_rows)) (
          >>_iff _ _ (validate_returning_iff r q.table.ref q.returning q.returns) (
            >>_iff _ _ (reject_incoming_iff q.assignments) (
              >>_iff _ _ (validate_columns_iff (codes "SET") (assigned_columns q.assignments) scope)
                (>>_iff _ _
                  (↔_trans (reject_repeated_iff [] q.assignments)
                    (Fresh-iff (map id (assigned_columns q.assignments))))
                  (>>_iff _ _ (validate_predicates_iff (codes "WHERE") q.predicates scope)
                    (ok_iff {a = render r q} {b = s})))))))) in
    (
      (λ h.
          let (r, e, (nonempty, (guard, (ret, (own, (sc, (one, (fit, same)))))))) = i.0 h in
          (
            r,
            record {
              dialect = e;
              some_assignment = nonempty;
              guarded = guard;
              returning = ret;
              own_values = own;
              in_scope = sc;
              once = one;
              fits = fit;
            },
            same,
          )),
      λ (r, v, same). i.1 (
        r,
        v.dialect,
        (
          v.some_assignment,
          (v.guarded, (v.returning, (v.own_values, (v.in_scope, (v.once, (v.fits, same)))))),
        ),
      ),
    )

render_assignments-Numbered :
    (r : Renderer) (later : Bool) (xs : List Assignment) (n : ℕ)
    → Numbered r n (render_assignments r later xs n)
unfolding render_assignments codes
render_assignments-Numbered r later [] n = record { marks = Reads-nil; counted = omega arith }
render_assignments-Numbered r later (a ∷ xs) n =
    let rest = render_assignments r true xs (n + 1) in
    let k = render_assignments-Numbered r true xs (n + 1) in
    record {
      marks = Reads-append (comma later) (
          Reads-append (Reads-quote_identifier r (column_name a.column)) (
            Reads-append (literal r " = " refl)
              (Reads-numbered n (a.value ∷ []) rest.args (Reads-placeholder r n) refl k.marks)));
      counted = omega (arith, k.counted);
    }
  where
    comma : (b : Bool) → Reads r (if b then codes ", " else []) []
    comma true = literal r ", " refl
    comma false = Reads-nil

params-render :
    (r : Renderer) (q : UpdateQuery)
    → All (λ p. HasKeywords (words p)) q.predicates
    → params r (render r q).sql ≡ numbered r 1 (length (render r q).args)
unfolding render new_statement codes
params-render r q h =
    let o = render_assignments r false q.assignments 1 in
    let i = render_assignments-Numbered r false q.assignments 1 in
    let w = render_clause r (codes " WHERE ") q.predicates o.next in
    let k = render_clause-Numbered r (codes " WHERE ") q.predicates o.next refl h in
    params-Reads (
      Reads-append (literal r "UPDATE " refl) (
        Reads-append (Reads-render_table r q.table.ref) (
          Reads-append (literal r " SET " refl) (
            Reads-numbered 1 o.args w.args i.marks i.counted
              (Reads-append_nil k.marks (Reads-render_returning r q.returning))))))

-- If the table has a renderer, the operators and function names of the predicates are plain SQL
-- words, and `Build` returns a statement, then an SQL lexer of that dialect finds in the text one
-- placeholder for each argument, numbered from 1 in the order of the arguments, and no other,
-- whatever the table and column names and the values are.
pub update_build-params :
    (r : Renderer) (q : UpdateQuery) (s : Statement)
    → renderer_for q.table.ref ≡ ok r
    → All (λ p. HasKeywords (words p)) q.predicates
    → build q ≡ ok s
    → params r s.sql ≡ numbered r 1 (length s.args)
update_build-params r q s e h b =
    let (r', v, same) = (update_build_iff q s).0 b in
    subst (λ t. params r t.sql ≡ numbered r 1 (length t.args)) same
      (subst (λ (x : Renderer). params r (render x q).sql ≡ numbered r 1 (length (render x q).args))
        (ok-injective (sym e ∙ v.dialect)) (params-render r q h))
