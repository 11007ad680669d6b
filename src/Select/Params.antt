-- ===== src/Select/Params.antt =====
-- About the text and the arguments of a SELECT that `Build` of query.go returns.
use tiqq.Prelude.{
  ℕ, Bool, true, false, List, [], ◌∷◌, ◌++◌, map, Option, none, some, Text, codes, join, separated,
  length, All, if◌then◌else◌, ok, >>=-eq-ok, ok-injective, ◌≡◌, refl, subst, arith,
}
use tiqq.Value.{ℤ}
use tiqq.Dialect.{Renderer, qualifier}
use tiqq.Column.{ColumnRef, Order}
use tiqq.Predicate.{Rendered, render_column, render_clause}
use tiqq.Predicate.Params.{
  words, column_words, IsKeyword, HasKeywords, Numbered, literal, Reads-numbered,
  Reads-render_column, render_clause-Numbered, Reads-render_table,
}
use tiqq.Scan.{
  Reads, Reads-nil, Reads-append, Reads-plain, Reads-placeholder, params, numbered, params-Reads,
}
use tiqq.Statement.{Statement, new_statement}
use tiqq.Source.{TableSource}
use tiqq.Join.{join_loop}
use tiqq.Join.Params.{JoinKeywords, join_loop-Numbered}
use tiqq.Select.{
  Query, render_group_by, render_order, render_order_by, render_bound, assemble, render_from, build,
}
use tiqq.Select.Builds.{IsValid, select_build_iff}

-- The names of operators, functions and directions in a query are words of SQL, as the methods of
-- columns, aggregates and predicates make them.
pub record QueryKeywords (q : Query) : Type 0 where
  pub selected : All (λ c. HasKeywords (column_words c)) q.projections
  pub filters : All (λ p. HasKeywords (words p)) q.predicates
  pub groups : All (λ c. HasKeywords (column_words c)) q.group_by
  pub group_filters : All (λ p. HasKeywords (words p)) q.having
  pub orders : All (λ o. HasKeywords (o.direction ∷ column_words o.order_column)) q.order_by
  pub joins : All JoinKeywords q.from.joins

module _ {A : Type 0} (r : Renderer) (write : A → Text) where
  Reads-separated :
      (xs : List A)
      → All (λ x. Reads r (write x) []) xs
      → Reads r (separated (codes ", ") (map write xs)) []
  unfolding separated codes
  Reads-separated [] h = Reads-nil
  Reads-separated (x ∷ xs) (h, hs) =
      Reads-append (literal r ", " refl) (Reads-append h (Reads-separated xs hs))

  Reads-join :
      (xs : List A)
      → All (λ x. Reads r (write x) []) xs
      → Reads r (join (codes ", ") (map write xs)) []
  unfolding join
  Reads-join [] h = Reads-nil
  Reads-join (x ∷ xs) (h, hs) = Reads-append h (Reads-separated xs hs)

module _ (r : Renderer) where
  columns_read :
      (cs : List ColumnRef)
      → All (λ c. HasKeywords (column_words c)) cs
      → All (λ c. Reads r (render_column r c) []) cs
  columns_read [] h = tt
  columns_read (c ∷ cs) (h, hs) = (Reads-render_column r c h, columns_read cs hs)

  orders_read :
      (os : List Order)
      → All (λ o. HasKeywords (o.direction ∷ column_words o.order_column)) os
      → All (λ o. Reads r (render_order r o) []) os
  unfolding codes
  orders_read [] h = tt
  orders_read (o ∷ os) ((d, c), hs) = (
    Reads-append (Reads-render_column r o.order_column c)
        (Reads-append (literal r " " refl) (Reads-plain r o.direction d)),
    orders_read os hs,
  )

  Reads-render_group_by :
      (cs : List ColumnRef)
      → All (λ c. HasKeywords (column_words c)) cs
      → Reads r (render_group_by r cs) []
  unfolding render_group_by codes
  Reads-render_group_by [] h = Reads-nil
  Reads-render_group_by (c ∷ cs) h =
      Reads-append (literal r " GROUP BY " refl)
        (Reads-join r (render_column r) (c ∷ cs) (columns_read (c ∷ cs) h))

  Reads-render_order_by :
      (os : List Order)
      → All (λ o. HasKeywords (o.direction ∷ column_words o.order_column)) os
      → Reads r (render_order_by r os) []
  unfolding render_order_by codes
  Reads-render_order_by [] h = Reads-nil
  Reads-render_order_by (o ∷ os) h =
      Reads-append (literal r " ORDER BY " refl)
        (Reads-join r (render_order r) (o ∷ os) (orders_read (o ∷ os) h))

  render_bound-Numbered :
      (keyword : Text) (v : Option ℤ) (n : ℕ)
      → IsKeyword keyword
      → Numbered r n (render_bound r keyword v n)
  unfolding render_bound
  render_bound-Numbered keyword none n k = record { marks = Reads-nil; counted = omega arith }
  render_bound-Numbered keyword (some v) n k = record {
    marks = Reads-append (Reads-plain r keyword k) (Reads-placeholder r n);
    counted = refl;
  }

  distinct-Reads : (b : Bool) → Reads r (if b then codes "DISTINCT " else []) []
  unfolding codes
  distinct-Reads true = literal r "DISTINCT " refl
  distinct-Reads false = Reads-nil

  params-assemble :
      (q : Query) (base : TableSource) (j : Rendered)
      → QueryKeywords q
      → Numbered r 1 j
      → params r (assemble r q base j).sql ≡ numbered r 1 (length (assemble r q base j).args)
  unfolding assemble new_statement codes
  params-assemble q base j k i =
      let w = render_clause r (codes " WHERE ") q.predicates j.next in
      let h = render_clause r (codes " HAVING ") q.having w.next in
      let l = render_bound r (codes " LIMIT ") q.limit h.next in
      let o = render_bound r (codes " OFFSET ") q.offset l.next in
      let iw = render_clause-Numbered r (codes " WHERE ") q.predicates j.next refl k.filters in
      let ih = render_clause-Numbered r (codes " HAVING ") q.having w.next refl k.group_filters in
      let il = render_bound-Numbered (codes " LIMIT ") q.limit h.next refl in
      let io = render_bound-Numbered (codes " OFFSET ") q.offset l.next refl in
      params-Reads (
        Reads-append (literal r "SELECT " refl) (
          Reads-append (distinct-Reads q.distinct) (
            Reads-append
              (Reads-join r (render_column r) q.projections (columns_read q.projections k.selected))
              (Reads-append (literal r " FROM " refl) (
                Reads-append (Reads-render_table r base.ref) (
                  Reads-numbered 1 j.args (w.args ++ (h.args ++ (l.args ++ o.args))) i.marks
                    i.counted
                    (Reads-numbered j.next w.args (h.args ++ (l.args ++ o.args)) iw.marks iw.counted
                      (Reads-append (Reads-render_group_by q.group_by k.groups) (
                        Reads-numbered w.next h.args (l.args ++ o.args) ih.marks ih.counted (
                          Reads-append (Reads-render_order_by q.order_by k.orders) (
                            Reads-numbered h.next l.args o.args il.marks il.counted
                              io.marks)))))))))))

  render_from-params :
      (q : Query) (ts : List TableSource) (s : Statement)
      → QueryKeywords q
      → render_from r q ts ≡ ok s
      → params r s.sql ≡ numbered r 1 (length s.args)
  unfolding render_from
  render_from-params q [] s k e = cc
  render_from-params q (base ∷ ts) s k e =
      let (j, joined, same) =
        >>=-eq-ok (join_loop r (base ∷ ts) (qualifier base.ref ∷ []) q.from.joins 1) _ e in
      subst (λ x. params r x.sql ≡ numbered r 1 (length x.args)) (ok-injective same)
        (params-assemble q base j k (
          join_loop-Numbered r (base ∷ ts) q.from.joins (qualifier base.ref ∷ []) 1 j k.joins
            joined))

-- If every operator, function name and direction of a query is a plain SQL word, and `Build` returns
-- a statement, then the query is valid for a renderer, and an SQL lexer of that dialect finds in the
-- text one placeholder for each argument, numbered from 1 in the order of the arguments, and no
-- other, whatever the table and column names and the values are.
pub select_build-params :
    (q : Query) (s : Statement)
    → QueryKeywords q
    → build q ≡ ok s
    → (r : Renderer) × IsValid r q × (params r s.sql ≡ numbered r 1 (length s.args))
select_build-params q s k b =
    let (r, v, rest) = (select_build_iff q s).0 b in
    (r, v, render_from-params r q q.from.tables s k rest)
