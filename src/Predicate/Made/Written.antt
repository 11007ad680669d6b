-- ===== src/Predicate/Made/Written.antt =====
-- About the operators and the arguments of the predicates that the exported functions of expression.go,
-- column.go and aggregate.go make.
use tiqq.Prelude.{
  ℕ, List, [], ◌∷◌, ◌++◌, Text, codes, All-append, ok, ok-injective, ◌≡◌, refl, subst, ap,
}
use tiqq.Value.{Value}
use tiqq.Dialect.{Renderer}
use tiqq.Column.{ColumnRef, new_column, aggregate, count, min_of, max_of, sum, avg}
use tiqq.Predicate.{
  Predicate, Predicates, value_comparison, column_comparison, negated_expression, no_more, more,
  of_list, list_comparison, null_comparison, logical_expression, comparison, eq, ne, gt, gte, lt,
  lte, like, compare_columns, eq_columns, ne_columns, gt_columns, gte_columns, lt_columns,
  lte_columns, is_null, is_not_null, list_predicate, in_list, not_in_list, logical, and_all, or_all,
  negate, render_predicate, render_predicates,
}
use tiqq.Predicate.Params.{words, words_of, column_words, IsKeyword, HasKeywords}
use tiqq.Predicate.Made.{
  IsMadeColumn, made_new, made_count, made_min, made_max, made_sum, made_avg, Comparing, by_eq,
  by_ne, by_gt, by_gte, by_lt, by_lte, by_like, ComparingColumns, by_eq_columns, by_ne_columns,
  by_gt_columns, by_gte_columns, by_lt_columns, by_lte_columns, IsMade, made_value, made_columns,
  made_is_null, made_is_not_null, made_in, made_not_in, made_and, made_or, made_not, AreMade,
  made_none, made_more,
}

-- The operators and function names that a predicate holds, the outer one first, with NOT for the node
-- of a negation.
unfoldable mutual
  pub operators : Predicate → List Text
  operators (value_comparison c op v) = op ∷ column_words c
  operators (column_comparison c op d) = op ∷ (column_words c ++ column_words d)
  operators (list_comparison c op vs) = op ∷ column_words c
  operators (null_comparison c op) = op ∷ column_words c
  operators (logical_expression op ps) = op ∷ operators_of ps
  operators (negated_expression p) = codes "NOT" ∷ operators p

  operators_of : Predicates → List Text
  operators_of no_more = []
  operators_of (more p ps) = operators p ++ operators_of ps

-- What a predicate holds: these operators and function names, where those that the renderer takes from
-- it have no quote, `$` or `?` and start with no digit, and these arguments, from any number of a
-- placeholder on.
pub record IsWritten (p : Predicate) (ws : List Text) (vs : List Value) : Type 0 where
  pub named : operators p ≡ ws
  pub keywords : HasKeywords (words p)
  pub bound : (r : Renderer) (n : ℕ) → (render_predicate r p n).args ≡ vs

record AreWritten (ps : List Predicate) (ws : List Text) (vs : List Value) : Type 0 where
  all_named : operators_of (of_list ps) ≡ ws
  all_keywords : HasKeywords (words_of (of_list ps))
  all_bound : (r : Renderer) (n : ℕ) → (render_predicates r (of_list ps) n).part_args ≡ vs

record IsWrittenColumn (c : ColumnRef) (ws : List Text) : Type 0 where
  column_named : column_words c ≡ ws
  column_keywords : HasKeywords (column_words c)

aggregate-IsWrittenColumn :
    {c : ColumnRef} {ws : List Text} (f : Text)
    → IsKeyword f
    → IsWrittenColumn c ws
    → IsWrittenColumn (aggregate f c) (f ∷ ws)
unfolding column_words aggregate
aggregate-IsWrittenColumn f k i = record {
  column_named = ap (λ ws. f ∷ ws) i.column_named;
  column_keywords = (k, i.column_keywords);
}

made_column : {c : ColumnRef} {ws : List Text} → IsMadeColumn c ws → IsWrittenColumn c ws
unfolding column_words new_column count min_of max_of sum avg codes
made_column (made_new t n) = record { column_named = refl; column_keywords = tt }
made_column (made_count m) = aggregate-IsWrittenColumn (codes "COUNT") refl (made_column m)
made_column (made_min m) = aggregate-IsWrittenColumn (codes "MIN") refl (made_column m)
made_column (made_max m) = aggregate-IsWrittenColumn (codes "MAX") refl (made_column m)
made_column (made_sum m) = aggregate-IsWrittenColumn (codes "SUM") refl (made_column m)
made_column (made_avg m) = aggregate-IsWrittenColumn (codes "AVG") refl (made_column m)

comparison-IsWritten :
    {c : ColumnRef} {ws : List Text} (op : Text) (v : Value)
    → IsKeyword op
    → IsWrittenColumn c ws
    → IsWritten (comparison c op v) (op ∷ ws) (v ∷ [])
unfolding comparison words operators render_predicate
comparison-IsWritten op v k i = record {
  named = ap (λ ws. op ∷ ws) i.column_named;
  keywords = (k, i.column_keywords);
  bound = λ r n. refl;
}

made_comparison :
    (f : ColumnRef → Value → Predicate) (op : Text) (c : ColumnRef) (v : Value) (ws : List Text)
    → Comparing f op
    → IsWrittenColumn c ws
    → IsWritten (f c v) (op ∷ ws) (v ∷ [])
unfolding eq ne gt gte lt lte like codes
made_comparison f op c v ws by_eq i = comparison-IsWritten (codes "=") v refl i
made_comparison f op c v ws by_ne i = comparison-IsWritten (codes "<>") v refl i
made_comparison f op c v ws by_gt i = comparison-IsWritten (codes ">") v refl i
made_comparison f op c v ws by_gte i = comparison-IsWritten (codes ">=") v refl i
made_comparison f op c v ws by_lt i = comparison-IsWritten (codes "<") v refl i
made_comparison f op c v ws by_lte i = comparison-IsWritten (codes "<=") v refl i
made_comparison f op c v ws by_like i = comparison-IsWritten (codes "LIKE") v refl i

compare_columns-IsWritten :
    {c d : ColumnRef} {ws us : List Text} (op : Text)
    → IsKeyword op
    → IsWrittenColumn c ws
    → IsWrittenColumn d us
    → IsWritten (compare_columns c op d) (op ∷ (ws ++ us)) []
unfolding compare_columns words operators render_predicate
compare_columns-IsWritten {c} {d} op k i j = record {
  named = rw (i.column_named, j.column_named) refl;
  keywords =
      (k, All-append _ (column_words c) (column_words d) i.column_keywords j.column_keywords);
  bound = λ r n. refl;
}

made_column_comparison :
    (f : ColumnRef → ColumnRef → Predicate) (op : Text) (c d : ColumnRef) (ws us : List Text)
    → ComparingColumns f op
    → IsWrittenColumn c ws
    → IsWrittenColumn d us
    → IsWritten (f c d) (op ∷ (ws ++ us)) []
unfolding eq_columns ne_columns gt_columns gte_columns lt_columns lte_columns codes
made_column_comparison f op c d ws us by_eq_columns i j =
    compare_columns-IsWritten (codes "=") refl i j
made_column_comparison f op c d ws us by_ne_columns i j =
    compare_columns-IsWritten (codes "<>") refl i j
made_column_comparison f op c d ws us by_gt_columns i j =
    compare_columns-IsWritten (codes ">") refl i j
made_column_comparison f op c d ws us by_gte_columns i j =
    compare_columns-IsWritten (codes ">=") refl i j
made_column_comparison f op c d ws us by_lt_columns i j =
    compare_columns-IsWritten (codes "<") refl i j
made_column_comparison f op c d ws us by_lte_columns i j =
    compare_columns-IsWritten (codes "<=") refl i j

null_comparison-IsWritten :
    {c : ColumnRef} {ws : List Text} (op : Text)
    → IsKeyword op
    → IsWrittenColumn c ws
    → IsWritten (null_comparison c op) (op ∷ ws) []
unfolding words operators render_predicate
null_comparison-IsWritten op k i = record {
  named = ap (λ ws. op ∷ ws) i.column_named;
  keywords = (k, i.column_keywords);
  bound = λ r n. refl;
}

list_predicate-IsWritten :
    {c : ColumnRef} {ws : List Text} {p : Predicate} (op : Text) (vs : List Value)
    → IsKeyword op
    → IsWrittenColumn c ws
    → list_predicate c op vs ≡ ok p
    → IsWritten p (op ∷ ws) vs
unfolding list_predicate words operators render_predicate
list_predicate-IsWritten op [] k i e = cc
list_predicate-IsWritten {c} {ws} op (v ∷ vs) k i e =
    subst (λ q. IsWritten q (op ∷ ws) (v ∷ vs)) (ok-injective e)
      (record {
        named = ap (λ us. op ∷ us) i.column_named;
        keywords = (k, i.column_keywords);
        bound = λ r n. refl;
      })

logical-IsWritten :
    (ps : List Predicate) {ws : List Text} {vs : List Value} {p : Predicate} (op : Text)
    → IsKeyword op
    → AreWritten ps ws vs
    → logical op ps ≡ ok p
    → IsWritten p (op ∷ ws) vs
unfolding logical words operators render_predicate
logical-IsWritten [] op k i e = cc
logical-IsWritten (q ∷ ps) {ws} {vs} op k i e =
    subst (λ p. IsWritten p (op ∷ ws) vs) (ok-injective e)
      (record {
        named = ap (λ us. op ∷ us) i.all_named;
        keywords = (k, i.all_keywords);
        bound = i.all_bound;
      })

more-AreWritten :
    {p : Predicate} {ps : List Predicate} {ws us : List Text} {vs xs : List Value}
    → IsWritten p ws vs
    → AreWritten ps us xs
    → AreWritten (p ∷ ps) (ws ++ us) (vs ++ xs)
unfolding words_of operators_of render_predicates
more-AreWritten {p} {ps} i j = record {
  all_named = rw (i.named, j.all_named) refl;
  all_keywords = All-append _ (words p) (words_of (of_list ps)) i.keywords j.all_keywords;
  all_bound = λ r n. rw (i.bound r n, j.all_bound r (render_predicate r p n).next) refl;
}

mutual
  unfolding words words_of operators operators_of render_predicate render_predicates is_null
      is_not_null in_list not_in_list and_all or_all negate codes

  written : {p : Predicate} {ws : List Text} {vs : List Value} → IsMade p ws vs → IsWritten p ws vs
  written (made_value f op c v k m) = made_comparison f op c v _ k (made_column m)
  written (made_columns f op c d k m n) =
      made_column_comparison f op c d _ _ k (made_column m) (made_column n)
  written (made_is_null c m) = null_comparison-IsWritten (codes "IS NULL") refl (made_column m)
  written (made_is_not_null c m) =
      null_comparison-IsWritten (codes "IS NOT NULL") refl (made_column m)
  written (made_in c vs m e) = list_predicate-IsWritten (codes "IN") vs refl (made_column m) e
  written (made_not_in c vs m e) =
      list_predicate-IsWritten (codes "NOT IN") vs refl (made_column m) e
  written (made_and ps ms e) = logical-IsWritten ps (codes "AND") refl (all_written ms) e
  written (made_or ps ms e) = logical-IsWritten ps (codes "OR") refl (all_written ms) e
  written (made_not p m) =
      let i = written m in
      record { named = ap (λ us. codes "NOT" ∷ us) i.named; keywords = i.keywords; bound = i.bound }

  all_written :
      {ps : List Predicate} {ws : List Text} {vs : List Value}
      → AreMade ps ws vs
      → AreWritten ps ws vs
  all_written made_none = record { all_named = refl; all_keywords = tt; all_bound = λ r n. refl }
  all_written (made_more p ps m ms) = more-AreWritten (written m) (all_written ms)

-- Every predicate that the exported functions make of columns that they make holds the SQL
-- operators and function names of the calls that made it, the outer one first, and the renderer
-- binds the values that the calls were given, in their order. None of the operators and names
-- that it renders from the predicate has a double quote, a backquote, `$` or `?`, or starts with
-- a digit.
pub IsMade-IsWritten :
    (p : Predicate) (ws : List Text) (vs : List Value) → IsMade p ws vs → IsWritten p ws vs
IsMade-IsWritten p ws vs m = written m
