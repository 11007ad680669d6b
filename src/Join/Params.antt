-- ===== src/Join/Params.antt =====
-- About the placeholders that the join loop of `Query.Build` writes.
use tiqq.Prelude.{
  ℕ, false, List, [], ◌∷◌, ◌++◌, codes, KeySet, length-append, All, ok, >>=-eq-ok, >>-eq-ok,
  fail_if, ok-injective, ◌≡◌, refl, subst, arith,
}
use tiqq.Dialect.{Renderer, qualifier, render_table}
use tiqq.Predicate.{Predicate, Rendered}
use tiqq.Predicate.Params.{
  words, HasKeywords, Numbered, literal, Reads-numbered, render_conjuncts-Numbered,
  Reads-render_table,
}
use tiqq.Scan.{Reads, Reads-nil, Reads-append}
use tiqq.Source.{
  TableSource, JoinKind, inner_join, left_join, right_join, full_join, cross_join, kind_text,
  JoinClause,
}
use tiqq.Join.{join_conditions, join_on, join_step, join_loop, render_on}
use tiqq.Join.Inference.{infer_join_conditions-IsCondition}

-- The operators and functions of an explicit ON clause.
abbrev pub JoinKeywords : JoinClause → Type 0
JoinKeywords j = All (λ p. HasKeywords (words p)) j.conditions

Reads-kind_text : (r : Renderer) (k : JoinKind) → Reads r (kind_text k) []
unfolding kind_text codes
Reads-kind_text r inner_join = literal r "INNER JOIN" refl
Reads-kind_text r left_join = literal r "LEFT JOIN" refl
Reads-kind_text r right_join = literal r "RIGHT JOIN" refl
Reads-kind_text r full_join = literal r "FULL JOIN" refl
Reads-kind_text r cross_join = literal r "CROSS JOIN" refl

Reads-join_head :
    (r : Renderer) (j : JoinClause)
    → Reads r
        (codes " " ++ (kind_text j.kind ++ (codes " " ++ render_table r j.right_table.ref)))
        []
unfolding codes
Reads-join_head r j = Reads-append (literal r " " refl) (
    Reads-append (Reads-kind_text r j.kind)
      (Reads-append (literal r " " refl) (Reads-render_table r j.right_table.ref)))

join_conditions-keywords :
    (tables : List TableSource) (visible : KeySet) (right : TableSource) (given ps : List Predicate)
    → All (λ p. HasKeywords (words p)) given
    → join_conditions tables visible right given ≡ ok ps
    → All (λ p. HasKeywords (words p)) ps
unfolding join_conditions
join_conditions-keywords tables visible right [] ps h e =
    (infer_join_conditions-IsCondition visible right tables ps e).keywords
join_conditions-keywords tables visible right (p ∷ qs) ps h e =
    subst (All (λ p. HasKeywords (words p))) (ok-injective e) h

render_on-Numbered :
    (r : Renderer) (j : JoinClause) (ps : List Predicate) (n : ℕ)
    → All (λ p. HasKeywords (words p)) ps
    → Numbered r n (render_on r j ps n)
unfolding render_on codes
render_on-Numbered r j ps n h =
    let i = render_conjuncts-Numbered r false ps n h in
    record {
      marks = Reads-append (Reads-join_head r j) (Reads-append (literal r " ON " refl) i.marks);
      counted = i.counted;
    }

module _ (r : Renderer) (tables : List TableSource) where
  join_on-Numbered :
      (visible : KeySet) (j : JoinClause) (n : ℕ) (o : Rendered)
      → JoinKeywords j
      → join_on r tables visible j n ≡ ok o
      → Numbered r n o
  unfolding join_on
  join_on-Numbered visible j n o h e =
      let (ps, given, rest) =
        >>=-eq-ok (join_conditions tables visible j.right_table j.conditions) _ e in
      subst (Numbered r n) (ok-injective (>>-eq-ok _ _ rest).1) (
        render_on-Numbered r j ps n
          (join_conditions-keywords tables visible j.right_table j.conditions ps h given))

  cross_join-Numbered :
      (j : JoinClause) (n : ℕ)
      → Numbered r n (record {
        text = codes " " ++ (kind_text j.kind ++ (codes " " ++ render_table r j.right_table.ref));
        args = [];
        next = n;
      })
  cross_join-Numbered j n = record { marks = Reads-join_head r j; counted = omega arith }

  join_step-Numbered :
      (visible : KeySet) (k : JoinKind) (j : JoinClause) (n : ℕ) (o : Rendered)
      → JoinKeywords j
      → join_step r tables visible k j n ≡ ok o
      → Numbered r n o
  unfolding join_step
  join_step-Numbered visible cross_join j n o h e =
      subst (Numbered r n) (ok-injective (>>-eq-ok (fail_if _ _) _ e).1) (cross_join-Numbered j n)
  join_step-Numbered visible full_join j n o h e =
      join_on-Numbered visible j n o h (>>-eq-ok _ _ e).1
  join_step-Numbered visible inner_join j n o h e = join_on-Numbered visible j n o h e
  join_step-Numbered visible left_join j n o h e = join_on-Numbered visible j n o h e
  join_step-Numbered visible right_join j n o h e = join_on-Numbered visible j n o h e

  pub join_loop-Numbered :
      (js : List JoinClause) (visible : KeySet) (n : ℕ) (o : Rendered)
      → All JoinKeywords js
      → join_loop r tables visible js n ≡ ok o
      → Numbered r n o
  unfolding join_loop
  join_loop-Numbered [] visible n o h e =
      subst (Numbered r n) (ok-injective e) (record { marks = Reads-nil; counted = omega arith })
  join_loop-Numbered (j ∷ js) visible n o (h, hs) e =
      let (a, first, later) = >>=-eq-ok (join_step r tables visible j.kind j n) _ e in
      let (b, second, same) =
        >>=-eq-ok (join_loop r tables (qualifier j.right_table.ref ∷ visible) js a.next) _ later in
      let i = join_step-Numbered visible j.kind j n a h first in
      let k = join_loop-Numbered js (qualifier j.right_table.ref ∷ visible) a.next b hs second in
      subst (Numbered r n) (ok-injective same) (record {
        marks = Reads-numbered n a.args b.args i.marks i.counted k.marks;
        counted = omega (arith, i.counted, k.counted, length-append a.args b.args);
      })
