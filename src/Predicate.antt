-- ===== src/Predicate.antt =====
-- expression.go, and the predicate methods of column.go and aggregate.go: predicates, their
-- rendering and the columns they mention.
pub mod Params
pub mod Made
use tiqq.Prelude.{
  ℕ, zero, suc, ◌+◌, Bool, true, false, List, [], ◌∷◌, ◌++◌, map, Text, codes, join, length,
  if◌then◌else◌, Result, ok, err, panic,
}
use tiqq.Value.{Value}
use tiqq.Dialect.{Renderer, quote_identifier, placeholder}
use tiqq.Column.{ColumnRef, plain, aggregated}

-- `predicateNode` by its kind. The children of a negation are one predicate.
mutual
  pub data Predicate : Type 0 where
    value_comparison : ColumnRef → Text → Value → Predicate
    column_comparison : ColumnRef → Text → ColumnRef → Predicate
    list_comparison : ColumnRef → Text → List Value → Predicate
    null_comparison : ColumnRef → Text → Predicate
    logical_expression : Text → Predicates → Predicate
    negated_expression : Predicate → Predicate

  pub data Predicates : Type 0 where
    no_more : Predicates
    more : Predicate → Predicates → Predicates

abbrev pub of_list : List Predicate → Predicates
of_list [] = no_more
of_list (p ∷ ps) = more p (of_list ps)

unfoldable pub comparison : ColumnRef → Text → Value → Predicate
comparison c op v = value_comparison c op v

-- The comparison methods of columns and aggregates (`Like` of columns only).
unfoldable pub eq : ColumnRef → Value → Predicate
unfolding comparison
eq c v = comparison c (codes "=") v

unfoldable pub ne : ColumnRef → Value → Predicate
unfolding comparison
ne c v = comparison c (codes "<>") v

unfoldable pub gt : ColumnRef → Value → Predicate
unfolding comparison
gt c v = comparison c (codes ">") v

unfoldable pub gte : ColumnRef → Value → Predicate
unfolding comparison
gte c v = comparison c (codes ">=") v

unfoldable pub lt : ColumnRef → Value → Predicate
unfolding comparison
lt c v = comparison c (codes "<") v

unfoldable pub lte : ColumnRef → Value → Predicate
unfolding comparison
lte c v = comparison c (codes "<=") v

unfoldable pub like : ColumnRef → Value → Predicate
unfolding comparison
like c v = comparison c (codes "LIKE") v

unfoldable pub compare_columns : ColumnRef → Text → ColumnRef → Predicate
compare_columns l op r = column_comparison l op r

-- The functions of the package that compare two columns.
unfoldable pub eq_columns : ColumnRef → ColumnRef → Predicate
unfolding compare_columns
eq_columns l r = compare_columns l (codes "=") r

unfoldable pub ne_columns : ColumnRef → ColumnRef → Predicate
unfolding compare_columns
ne_columns l r = compare_columns l (codes "<>") r

unfoldable pub gt_columns : ColumnRef → ColumnRef → Predicate
unfolding compare_columns
gt_columns l r = compare_columns l (codes ">") r

unfoldable pub gte_columns : ColumnRef → ColumnRef → Predicate
unfolding compare_columns
gte_columns l r = compare_columns l (codes ">=") r

unfoldable pub lt_columns : ColumnRef → ColumnRef → Predicate
unfolding compare_columns
lt_columns l r = compare_columns l (codes "<") r

unfoldable pub lte_columns : ColumnRef → ColumnRef → Predicate
unfolding compare_columns
lte_columns l r = compare_columns l (codes "<=") r

unfoldable pub is_null : ColumnRef → Predicate
is_null c = null_comparison c (codes "IS NULL")

unfoldable pub is_not_null : ColumnRef → Predicate
is_not_null c = null_comparison c (codes "IS NOT NULL")

unfoldable pub list_predicate : ColumnRef → Text → List Value → Result Predicate
list_predicate c op [] =
    err (panic (codes "tiqq: " ++ (op ++ codes " requires at least one value")))
list_predicate c op (v ∷ vs) = ok (list_comparison c op (v ∷ vs))

unfoldable pub in_list : ColumnRef → List Value → Result Predicate
unfolding list_predicate
in_list c vs = list_predicate c (codes "IN") vs

unfoldable pub not_in_list : ColumnRef → List Value → Result Predicate
unfolding list_predicate
not_in_list c vs = list_predicate c (codes "NOT IN") vs

unfoldable pub logical : Text → List Predicate → Result Predicate
logical op [] = err (panic (codes "tiqq: " ++ (op ++ codes " requires at least one predicate")))
logical op (p ∷ ps) = ok (logical_expression op (of_list (p ∷ ps)))

unfoldable pub and_all : List Predicate → Result Predicate
unfolding logical
and_all ps = logical (codes "AND") ps

unfoldable pub or_all : List Predicate → Result Predicate
unfolding logical
or_all ps = logical (codes "OR") ps

unfoldable pub negate : Predicate → Predicate
negate p = negated_expression p

unfoldable pub render_column : Renderer → ColumnRef → Text
render_column r (plain i q n) = quote_identifier r q ++ (codes "." ++ quote_identifier r n)
render_column r (aggregated i q n f c) = f ++ (codes "(" ++ (render_column r c ++ codes ")"))

-- What a rendering step writes: the text, the arguments in the order of their placeholders, and the
-- number of the next placeholder (`*nextArg` afterwards).
pub record Rendered : Type 0 where
  pub text : Text
  pub args : List Value
  pub next : ℕ

-- The parts of a logical expression before they are joined.
pub record RenderedParts : Type 0 where
  pub parts : List Text
  pub part_args : List Value
  pub part_next : ℕ

-- One placeholder for each value, and the next number.
unfoldable pub placeholders : Renderer → List Value → ℕ → List Text
placeholders r [] n = []
placeholders r (v ∷ vs) n = placeholder r n ∷ placeholders r vs (n + 1)

unfoldable mutual
  pub render_predicate : Renderer → Predicate → ℕ → Rendered
  render_predicate r (value_comparison c op v) n = record {
    text = render_column r c ++ (codes " " ++ (op ++ (codes " " ++ placeholder r n)));
    args = v ∷ [];
    next = n + 1;
  }
  render_predicate r (column_comparison c op d) n = record {
    text = render_column r c ++ (codes " " ++ (op ++ (codes " " ++ render_column r d)));
    args = [];
    next = n;
  }
  render_predicate r (list_comparison c op vs) n = record {
    text =
        render_column r c
        ++ (codes " "
            ++ (op ++ (codes " (" ++ (join (codes ", ") (placeholders r vs n) ++ codes ")"))));
    args = vs;
    next = n + length vs;
  }
  render_predicate r (null_comparison c op) n = record {
    text = render_column r c ++ (codes " " ++ op);
    args = [];
    next = n;
  }
  render_predicate r (logical_expression op ps) n =
      let o = render_predicates r ps n in
      record {
        text = codes "(" ++ (join (codes " " ++ (op ++ codes " ")) o.parts ++ codes ")");
        args = o.part_args;
        next = o.part_next;
      }
  render_predicate r (negated_expression p) n =
      let o = render_predicate r p n in
      record { text = codes "NOT (" ++ (o.text ++ codes ")"); args = o.args; next = o.next }

  pub render_predicates : Renderer → Predicates → ℕ → RenderedParts
  render_predicates r no_more n = record { parts = []; part_args = []; part_next = n }
  render_predicates r (more p ps) n =
      let o = render_predicate r p n in
      let rest = render_predicates r ps o.next in
      record {
        parts = o.text ∷ rest.parts;
        part_args = o.args ++ rest.part_args;
        part_next = rest.part_next;
      }

unfoldable mutual
  pub predicate_columns : Predicate → List ColumnRef
  predicate_columns (column_comparison c op d) = c ∷ d ∷ []
  predicate_columns (logical_expression op ps) = predicates_columns ps
  predicate_columns (negated_expression p) = predicate_columns p
  predicate_columns (value_comparison c op v) = c ∷ []
  predicate_columns (list_comparison c op vs) = c ∷ []
  predicate_columns (null_comparison c op) = c ∷ []

  pub predicates_columns : Predicates → List ColumnRef
  predicates_columns no_more = []
  predicates_columns (more p ps) = predicate_columns p ++ predicates_columns ps

-- The loops of the builders that write predicates behind one another with " AND " between them.
-- The flag is `index > 0`.
unfoldable pub render_conjuncts : Renderer → Bool → List Predicate → ℕ → Rendered
render_conjuncts r later [] n = record { text = []; args = []; next = n }
render_conjuncts r later (p ∷ ps) n =
    let o = render_predicate r p n in
    let rest = render_conjuncts r true ps o.next in
    record {
      text = (if later then codes " AND " else []) ++ (o.text ++ rest.text);
      args = o.args ++ rest.args;
      next = rest.next;
    }

-- A WHERE or HAVING clause, as the builders write it if there are predicates.
unfoldable pub render_clause : Renderer → Text → List Predicate → ℕ → Rendered
unfolding render_conjuncts
render_clause r keyword [] n = record { text = []; args = []; next = n }
render_clause r keyword (p ∷ ps) n =
    let o = render_conjuncts r false (p ∷ ps) n in
    record { text = keyword ++ o.text; args = o.args; next = o.next }
