-- ===== src/Insert/Params.antt =====
-- About the text and the arguments of an INSERT that `Build` of insert.go returns.
use tiqq.Prelude.{
  ℕ, ◌+◌, Bool, true, false, List, [], ◌∷◌, ◌++◌, map, Option, none, some, Text, codes, join,
  separated, length, length-append, if◌then◌else◌, Bool-cases, ok, fail_if, >>=-eq-ok, >>-eq-ok,
  ok-injective, ◌≡◌, inl, inr, refl, subst, sym, ◌∙◌, arith,
}
use tiqq.Dialect.{Renderer, renderer_for, qualifier, quote_identifier}
use tiqq.Column.{ColumnRef, Assignment, InsertValue, column_name}
use tiqq.Predicate.Params.{
  Numbered, literal, Reads-numbered, Reads-append_nil, Reads-render_table, Reads-join-placeholders,
}
use tiqq.Scan.{
  Reads, Reads-nil, Reads-append, Reads-placeholder, Reads-quote_identifier, params, numbered,
  params-Reads,
}
use tiqq.Validate.{validate_returning}
use tiqq.Validate.Scope.{Reads-join-quoted, Reads-render_returning}
use tiqq.Statement.{Statement, new_statement}
use tiqq.Insert.Conflict.{
  InsertConflict, render_incoming, render_target, render_action, render_conflict, render_new_alias,
  render_duplicate_key, is_excluded, is_inserted, validate_conflict, validate_duplicate_key,
}
use tiqq.Insert.{
  InsertQuery, value_name, names, first_row, row_values, normalize_rows, render_rows, render, build,
}

module _ (r : Renderer) where
  comma : (b : Bool) → Reads r (if b then codes ", " else []) []
  unfolding codes
  comma true = literal r ", " refl
  comma false = Reads-nil

  assigned_head :
      (later : Bool) (c : Text)
      → Reads r ((if later then codes ", " else []) ++ (quote_identifier r c ++ codes " = ")) []
  unfolding codes
  assigned_head later c =
      Reads-append (comma later) (Reads-append (Reads-quote_identifier r c) (literal r " = " refl))

  render_incoming-Numbered :
      (taken : Assignment → Bool) (source : Text) (later : Bool) (xs : List Assignment) (n : ℕ)
      → Reads r source []
      → Numbered r n (render_incoming r taken source later xs n)
  unfolding render_incoming
  render_incoming-Numbered taken source later [] n h = record {
    marks = Reads-nil;
    counted = omega arith;
  }
  render_incoming-Numbered taken source later (a ∷ xs) n h = elim (Bool-cases (taken a)) [
    | inl yes_taken ↦ rw yes_taken (
        let k = render_incoming-Numbered taken source true xs n h in
        record {
          marks = Reads-append (assigned_head later (column_name a.column)) (
              Reads-append h
                (Reads-append (Reads-quote_identifier r (column_name a.column)) k.marks));
          counted = k.counted;
        })
    | inr given ↦ rw given (
        let k = render_incoming-Numbered taken source true xs (n + 1) h in
        let rest = render_incoming r taken source true xs (n + 1) in
        record {
          marks =
              Reads-append (assigned_head later (column_name a.column))
                (Reads-numbered n (a.value ∷ []) rest.args (Reads-placeholder r n) refl k.marks);
          counted = omega (arith, k.counted);
        })
  ]

  Reads-render_target : (cs : List ColumnRef) → Reads r (render_target r cs) []
  unfolding render_target codes
  Reads-render_target [] = Reads-nil
  Reads-render_target (c ∷ cs) =
      Reads-append (literal r " (" refl)
        (Reads-append (Reads-join-quoted r (c ∷ cs)) (literal r ")" refl))

  render_action-Numbered :
      (nothing : Bool) (xs : List Assignment) (n : ℕ) → Numbered r n (render_action r nothing xs n)
  unfolding render_action codes
  render_action-Numbered true xs n = record {
    marks = literal r " DO NOTHING" refl;
    counted = omega arith;
  }
  render_action-Numbered false xs n =
      let k =
        render_incoming-Numbered is_excluded (codes "EXCLUDED.") false xs n
          (literal r "EXCLUDED." refl) in
      record {
        marks = Reads-append (literal r " DO UPDATE SET " refl) k.marks;
        counted = k.counted;
      }

  render_conflict-Numbered :
      (c : Option InsertConflict) (n : ℕ) → Numbered r n (render_conflict r c n)
  unfolding render_conflict codes
  render_conflict-Numbered none n = record { marks = Reads-nil; counted = omega arith }
  render_conflict-Numbered (some c) n =
      let k = render_action-Numbered c.do_nothing c.assignments n in
      record {
        marks =
            Reads-append (literal r " ON CONFLICT" refl)
              (Reads-append (Reads-render_target c.conflict_target) k.marks);
        counted = k.counted;
      }

  Reads-render_new_alias : (d : Option (List Assignment)) → Reads r (render_new_alias r d) []
  unfolding render_new_alias
  Reads-render_new_alias none = Reads-nil
  Reads-render_new_alias (some []) = Reads-nil
  Reads-render_new_alias (some (a ∷ xs)) =
      Reads-append (literal r " AS " (unfold codes in refl))
        (Reads-quote_identifier r (codes "tiqq_new"))

  render_duplicate_key-Numbered :
      (d : Option (List Assignment)) (n : ℕ) → Numbered r n (render_duplicate_key r d n)
  unfolding render_duplicate_key
  render_duplicate_key-Numbered none n = record { marks = Reads-nil; counted = omega arith }
  render_duplicate_key-Numbered (some []) n = record { marks = Reads-nil; counted = omega arith }
  render_duplicate_key-Numbered (some (a ∷ xs)) n =
      let source = quote_identifier r (codes "tiqq_new") ++ codes "." in
      let k = render_incoming-Numbered is_inserted source false (a ∷ xs) n (
        Reads-append (Reads-quote_identifier r (codes "tiqq_new"))
          (literal r "." (unfold codes in refl))) in
      record {
        marks = Reads-append (literal r " ON DUPLICATE KEY UPDATE " (unfold codes in refl)) k.marks;
        counted = k.counted;
      }

  render_rows-Numbered :
      (later : Bool) (rows : List (List InsertValue)) (n : ℕ)
      → Numbered r n (render_rows r later rows n)
  unfolding render_rows codes
  render_rows-Numbered later [] n = record { marks = Reads-nil; counted = omega arith }
  render_rows-Numbered later (row ∷ rows) n =
      let m = n + length (row_values row) in
      let rest = render_rows r true rows m in
      let k = render_rows-Numbered true rows m in
      record {
        marks = Reads-append (comma later) (
            Reads-append (literal r "(" refl) (
              Reads-numbered n (row_values row) rest.args
                (Reads-join-placeholders r (row_values row) n) refl
                (Reads-append (literal r ")" refl) k.marks)));
        counted = omega (arith, k.counted, length-append (row_values row) rest.args);
      }

  Reads-separated-names :
      (vs : List InsertValue)
      → Reads r (separated (codes ", ") (map (λ v. quote_identifier r (value_name v)) vs)) []
  unfolding separated codes
  Reads-separated-names [] = Reads-nil
  Reads-separated-names (v ∷ vs) =
      Reads-append (literal r ", " refl)
        (Reads-append (Reads-quote_identifier r (value_name v)) (Reads-separated-names vs))

  Reads-join-names :
      (vs : List InsertValue)
      → Reads r (join (codes ", ") (map (λ v. quote_identifier r (value_name v)) vs)) []
  unfolding join
  Reads-join-names [] = Reads-nil
  Reads-join-names (v ∷ vs) =
      Reads-append (Reads-quote_identifier r (value_name v)) (Reads-separated-names vs)

  params-render :
      (q : InsertQuery) (rows : List (List InsertValue))
      → params r (render r q rows).sql ≡ numbered r 1 (length (render r q rows).args)
  unfolding render new_statement codes
  params-render q rows =
      let o = render_rows r false rows 1 in
      let c = render_conflict r q.conflict o.next in
      let d = render_duplicate_key r q.duplicate c.next in
      let io = render_rows-Numbered false rows 1 in
      let ic = render_conflict-Numbered q.conflict o.next in
      let jd = render_duplicate_key-Numbered q.duplicate c.next in
      params-Reads (
        Reads-append (literal r "INSERT INTO " refl) (
          Reads-append (Reads-render_table r q.table) (
            Reads-append (literal r " (" refl) (
              Reads-append (Reads-join-names (first_row rows)) (
                Reads-append (literal r ") VALUES " refl) (
                  Reads-numbered 1 o.args (c.args ++ d.args) io.marks io.counted (
                    Reads-append (Reads-render_new_alias q.duplicate) (
                      Reads-numbered o.next c.args d.args ic.marks ic.counted
                        (Reads-append_nil jd.marks (Reads-render_returning r q.returning))))))))))

-- What `Build` returns is the rendered query, its rows in the order of the first row's columns.
pub build-render :
    (q : InsertQuery) (s : Statement)
    → build q ≡ ok s
    → (r : Renderer) × (rows : List (List InsertValue)) × (renderer_for q.table ≡ ok r)
      × (normalize_rows q (names (first_row q.rows)) 1 q.rows ≡ ok rows)
      × (s ≡ render r q rows)
unfolding build
build-render q s h =
    let (r, e, h1) = >>=-eq-ok (renderer_for q.table) _ h in
    let h2 = (>>-eq-ok (fail_if _ _) _ h1).1 in
    let h3 = (>>-eq-ok (validate_returning r q.table q.returning q.returns) _ h2).1 in
    let (rows, f, h4) = >>=-eq-ok (normalize_rows q (names (first_row q.rows)) 1 q.rows) _ h3 in
    let h5 = (>>-eq-ok (fail_if _ _) _ h4).1 in
    let h6 =
      (>>-eq-ok (validate_conflict r (qualifier q.table) q.insertable q.unique_keys q.conflict) _
        h5).1 in
    let h7 =
      (>>-eq-ok (validate_duplicate_key (qualifier q.table) q.insertable q.duplicate) _ h6).1 in
    (r, rows, e, f, sym (ok-injective h7))

-- If the table has a renderer and `Build` returns a statement, an SQL lexer of that dialect finds in
-- the text one placeholder for each argument, those of conflict clauses included, numbered from 1
-- in the order of the arguments, and no other, whatever the table and column names and the values are.
pub insert_build-params :
    (r : Renderer) (q : InsertQuery) (s : Statement)
    → renderer_for q.table ≡ ok r
    → build q ≡ ok s
    → params r s.sql ≡ numbered r 1 (length s.args)
insert_build-params r q s e h =
    let (r', rows, f, _, same) = build-render q s h in
    subst (λ t. params r t.sql ≡ numbered r 1 (length t.args)) (sym same)
      (subst
        (λ (x : Renderer).
          params r (render x q rows).sql ≡ numbered r 1 (length (render x q rows).args))
        (ok-injective (sym e ∙ f)) (params-render r q rows))
