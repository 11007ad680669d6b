-- ===== src/Delete/Builds.antt =====
-- About `DeleteQuery.Build` of delete.go: when it succeeds, and what it builds.
use tiqq.Prelude.{
  true, [], ◌∷◌, codes, length, All, ok, >>_iff, fail_if_iff, >>=_iff, ok_iff, ok-injective,
  ↔_trans, ◌≡◌, ◌≢◌, ◌↔◌, ◌⊎◌, refl, subst, ◌∙◌, sym,
}
use tiqq.Dialect.{Renderer, renderer_for, qualifier}
use tiqq.Predicate.{render_clause}
use tiqq.Predicate.Params.{
  words, HasKeywords, render_clause-Numbered, Reads-render_table, literal, Reads-append_nil,
}
use tiqq.Validate.Scope.{
  guarded_iff, Fits, Returns, validate_predicates_iff, validate_returning_iff,
  Reads-render_returning,
}
use tiqq.Scan.{Reads-append, params, numbered, params-Reads}
use tiqq.Statement.{Statement, new_statement}
use tiqq.Delete.{DeleteQuery, build, render}

-- A DELETE that may be built: it names a dialect, has a predicate or the explicit permission to
-- delete all rows, and mentions only columns of its table.
pub record IsValid (r : Renderer) (q : DeleteQuery) : Type 0 where
  pub dialect : renderer_for q.table.ref ≡ ok r
  pub guarded : (q.predicates ≢ []) ⊎ (q.all_rows ≡ true)
  pub returning : (q.returns ≡ true) → Returns r q.table.ref q.returning
  pub fits : All (Fits (qualifier q.table.ref ∷ [])) q.predicates

-- `DeleteQuery.Build` returns a statement exactly if the query is valid for a renderer and the
-- statement is what that renderer writes. Valid: its table has that renderer, it has a predicate or
-- AllRows, a requested RETURNING is accepted, and its predicates name plain columns of the table.
pub delete_build_iff :
    (q : DeleteQuery) (s : Statement)
    → (build q ≡ ok s) ↔ ((r : Renderer) × IsValid r q × (render r q ≡ s))
unfolding build
delete_build_iff q s =
    let scope = qualifier q.table.ref ∷ [] in
    let i = >>=_iff (renderer_for q.table.ref) _ (λ r.
      >>_iff _ _ (↔_trans (fail_if_iff _ _) (guarded_iff q.predicates q.all_rows)) (
        >>_iff _ _ (validate_returning_iff r q.table.ref q.returning q.returns) (
          >>_iff _ _ (validate_predicates_iff (codes "WHERE") q.predicates scope)
            (ok_iff {a = render r q} {b = s})))) in
    (
      (λ h.
          let (r, e, (guard, (ret, (fit, same)))) = i.0 h in
          (r, record { dialect = e; guarded = guard; returning = ret; fits = fit }, same)),
      λ (r, v, same). i.1 (r, v.dialect, (v.guarded, (v.returning, (v.fits, same)))),
    )

params-render :
    (r : Renderer) (q : DeleteQuery)
    → All (λ p. HasKeywords (words p)) q.predicates
    → params r (render r q).sql ≡ numbered r 1 (length (render r q).args)
unfolding render new_statement codes
params-render r q h =
    let o = render_clause r (codes " WHERE ") q.predicates 1 in
    let i = render_clause-Numbered r (codes " WHERE ") q.predicates 1 refl h in
    params-Reads (
      Reads-append (literal r "DELETE FROM " refl) (
        Reads-append (Reads-render_table r q.table.ref)
          (Reads-append_nil i.marks (Reads-render_returning r q.returning))))

-- If the table has a renderer, the operators and function names of the predicates are plain SQL
-- words, and `Build` returns a statement, then an SQL lexer of that dialect finds in the text one
-- placeholder for each argument, numbered from 1 in the order of the arguments, and no other,
-- whatever the table and column names and the values are.
pub delete_build-params :
    (r : Renderer) (q : DeleteQuery) (s : Statement)
    → renderer_for q.table.ref ≡ ok r
    → All (λ p. HasKeywords (words p)) q.predicates
    → build q ≡ ok s
    → params r s.sql ≡ numbered r 1 (length s.args)
delete_build-params r q s e h b =
    let (r', v, same) = (delete_build_iff q s).0 b in
    subst (λ t. params r t.sql ≡ numbered r 1 (length t.args)) same
      (subst (λ (x : Renderer). params r (render x q).sql ≡ numbered r 1 (length (render x q).args))
        (ok-injective (sym e ∙ v.dialect)) (params-render r q h))
