-- ===== src/Predicate/Params.antt =====
-- About the placeholders that the rendering of predicates in expression.go writes.
use tiqq.Prelude.{
  ℕ, suc, ◌+◌, Bool, true, false, List, [], ◌∷◌, ◌++◌, append-nil, Option, Text, codes, String,
  join, separated, is_empty, length, length-append, All, All-append_left, All-append_right,
  if◌then◌else◌, ◌≡◌, refl, sym, arith, subst,
}
use tiqq.Value.{Value}
use tiqq.Dialect.{Renderer, TableRef, render_table, quote_identifier}
use tiqq.Column.{ColumnRef, plain, aggregated}
use tiqq.Scan.{
  Reads, Reads-nil, Reads-append, Reads-plain, Reads-quote_identifier, Reads-placeholder, is_plain,
  numbered, numbered-add,
}
use tiqq.Predicate.{
  Predicate, Predicates, value_comparison, column_comparison, list_comparison, null_comparison,
  logical_expression, negated_expression, no_more, more, Rendered, RenderedParts, render_column,
  placeholders, render_predicate, render_predicates, render_conjuncts, render_clause,
}

-- The function names in a column, and the operators and function names in a predicate: all the text
-- that is written outside quotes and not by a literal of the source.
unfoldable pub column_words : ColumnRef → List Text
column_words (plain i q n) = []
column_words (aggregated i q n f c) = f ∷ column_words c

unfoldable mutual
  pub words : Predicate → List Text
  words (value_comparison c op v) = op ∷ column_words c
  words (column_comparison c op d) = op ∷ (column_words c ++ column_words d)
  words (list_comparison c op vs) = op ∷ column_words c
  words (null_comparison c op) = op ∷ column_words c
  words (logical_expression op ps) = op ∷ words_of ps
  words (negated_expression p) = words p

  pub words_of : Predicates → List Text
  words_of no_more = []
  words_of (more p ps) = words p ++ words_of ps

abbrev pub IsKeyword : Text → Type 0
IsKeyword w = is_plain w ≡ true

abbrev pub HasKeywords : List Text → Type 0
HasKeywords = All IsKeyword

-- What is rendered from the number `first` on holds the placeholders of its arguments and no other.
pub record Numbered (r : Renderer) (first : ℕ) (o : Rendered) : Type 0 where
  pub marks : Reads r o.text (numbered r first (length o.args))
  pub counted : o.next ≡ first + length o.args

pub record NumberedParts (r : Renderer) (first : ℕ) (o : RenderedParts) : Type 0 where
  pub joined :
      (sep : Text)
      → Reads r sep []
      → Reads r (join sep o.parts) (numbered r first (length o.part_args))
  pub behind :
      (sep : Text)
      → Reads r sep []
      → Reads r (separated sep o.parts) (numbered r first (length o.part_args))
  pub counted : o.part_next ≡ first + length o.part_args

pub literal : (r : Renderer) (l : String) → is_plain (codes l) ≡ true → Reads r (codes l) []
literal r l h = Reads-plain r (codes l) h

pub numbered-append :
    (r : Renderer) (n : ℕ) {m : ℕ} (xs ys : List Value)
    → m ≡ n + length xs
    → numbered r n (length xs) ++ numbered r m (length ys) ≡ numbered r n (length (xs ++ ys))
numbered-append r n xs ys e =
    rw (e, length-append xs ys) (sym (numbered-add r n (length xs) (length ys)))

-- Two renderings one behind the other.
pub Reads-numbered :
    {r : Renderer} {s t : Text} (n : ℕ) {m : ℕ} (xs ys : List Value)
    → Reads r s (numbered r n (length xs))
    → m ≡ n + length xs
    → Reads r t (numbered r m (length ys))
    → Reads r (s ++ t) (numbered r n (length (xs ++ ys)))
Reads-numbered {r} {s} {t} n xs ys a e b =
    subst (λ found. Reads r (s ++ t) found) (numbered-append r n xs ys e) (Reads-append a b)

pub Reads-append_nil :
    {r : Renderer} {s t : Text} {ps : List (Option ℕ)}
    → Reads r s ps
    → Reads r t []
    → Reads r (s ++ t) ps
Reads-append_nil {r} {s} {t} {ps} a b =
    subst (λ found. Reads r (s ++ t) found) (append-nil ps) (Reads-append a b)

pub Reads-render_column :
    (r : Renderer) (c : ColumnRef) → HasKeywords (column_words c) → Reads r (render_column r c) []
unfolding render_column column_words codes
Reads-render_column r (plain i q n) h =
    Reads-append (Reads-quote_identifier r q)
      (Reads-append (literal r "." refl) (Reads-quote_identifier r n))
Reads-render_column r (aggregated i q n f c) (hf, hc) = Reads-append (Reads-plain r f hf) (
    Reads-append (literal r "(" refl)
      (Reads-append (Reads-render_column r c hc) (literal r ")" refl)))

Reads-separated-placeholders :
    (r : Renderer) (vs : List Value) (n : ℕ)
    → Reads r (separated (codes ", ") (placeholders r vs n)) (numbered r n (length vs))
unfolding separated placeholders codes
Reads-separated-placeholders r [] n = Reads-nil
Reads-separated-placeholders r (v ∷ vs) n = Reads-append (literal r ", " refl) (
    Reads-append (Reads-placeholder r n) (
      subst
        (λ m.
          Reads r (separated (codes ", ") (placeholders r vs (n + 1))) (numbered r m (length vs)))
        (let e : n + 1 ≡ suc n = omega arith in e) (Reads-separated-placeholders r vs (n + 1))))

pub Reads-join-placeholders :
    (r : Renderer) (vs : List Value) (n : ℕ)
    → Reads r (join (codes ", ") (placeholders r vs n)) (numbered r n (length vs))
unfolding join placeholders
Reads-join-placeholders r [] n = Reads-nil
Reads-join-placeholders r (v ∷ vs) n =
    (Reads-append (Reads-placeholder r n) (
      subst
        (λ m.
          Reads r (separated (codes ", ") (placeholders r vs (n + 1))) (numbered r m (length vs)))
        (let e : n + 1 ≡ suc n = omega arith in e) (Reads-separated-placeholders r vs (n + 1))))

mutual
  unfolding render_predicate words codes join separated

  render_predicate-Numbered :
      (r : Renderer) (p : Predicate) (n : ℕ)
      → HasKeywords (words p)
      → Numbered r n (render_predicate r p n)
  render_predicate-Numbered r (value_comparison c op v) n (h, hc) = record {
    marks = Reads-append (Reads-render_column r c hc) (
        Reads-append (literal r " " refl) (
          Reads-append (Reads-plain r op h)
            (Reads-append (literal r " " refl) (Reads-placeholder r n))));
    counted = refl;
  }
  render_predicate-Numbered r (column_comparison c op d) n (h, hc) = record {
    marks =
        Reads-append
          (Reads-render_column r c (All-append_left _ (column_words c) (column_words d) hc))
          (Reads-append (literal r " " refl) (
            Reads-append (Reads-plain r op h) (
              Reads-append (literal r " " refl) (
                Reads-render_column r d
                  (All-append_right _ (column_words c) (column_words d) hc)))));
    counted = omega arith;
  }
  render_predicate-Numbered r (list_comparison c op vs) n (h, hc) = record {
    marks = Reads-append (Reads-render_column r c hc) (
        Reads-append (literal r " " refl) (
          Reads-append (Reads-plain r op h) (
            Reads-append (literal r " (" refl)
              (Reads-append_nil (Reads-join-placeholders r vs n) (literal r ")" refl)))));
    counted = refl;
  }
  render_predicate-Numbered r (null_comparison c op) n (h, hc) = record {
    marks =
        Reads-append (Reads-render_column r c hc)
          (Reads-append (literal r " " refl) (Reads-plain r op h));
    counted = omega arith;
  }
  render_predicate-Numbered r (logical_expression op ps) n (h, hps) =
      let i = render_predicates-NumberedParts r ps n hps in
      record {
        marks = Reads-append (literal r "(" refl) (
            Reads-append_nil
              (i.joined (codes " " ++ (op ++ codes " ")) (
                Reads-append (literal r " " refl)
                  (Reads-append (Reads-plain r op h) (literal r " " refl))))
              (literal r ")" refl));
        counted = i.counted;
      }
  render_predicate-Numbered r (negated_expression p) n h =
      let i = render_predicate-Numbered r p n h in
      record {
        marks =
            Reads-append (literal r "NOT (" refl) (Reads-append_nil i.marks (literal r ")" refl));
        counted = i.counted;
      }

  render_predicates-NumberedParts :
      (r : Renderer) (ps : Predicates) (n : ℕ)
      → HasKeywords (words_of ps)
      → NumberedParts r n (render_predicates r ps n)
  render_predicates-NumberedParts r no_more n h = record {
    joined = λ sep g. Reads-nil;
    behind = λ sep g. Reads-nil;
    counted = omega arith;
  }
  render_predicates-NumberedParts r (more p ps) n h =
      let o = render_predicate r p n in
      let rest = render_predicates r ps o.next in
      let i = render_predicate-Numbered r p n (All-append_left _ (words p) (words_of ps) h) in
      let k =
        render_predicates-NumberedParts r ps o.next
          (All-append_right _ (words p) (words_of ps) h) in
      record {
        joined = λ sep g. Reads-numbered n o.args rest.part_args i.marks i.counted (k.behind sep g);
        behind = λ sep g.
            Reads-append g
              (Reads-numbered n o.args rest.part_args i.marks i.counted (k.behind sep g));
        counted = omega (arith, i.counted, k.counted, length-append o.args rest.part_args);
      }

-- The predicates of a WHERE, ON or HAVING clause.
pub render_conjuncts-Numbered :
    (r : Renderer) (later : Bool) (ps : List Predicate) (n : ℕ)
    → All (λ p. HasKeywords (words p)) ps
    → Numbered r n (render_conjuncts r later ps n)
unfolding render_conjuncts codes
render_conjuncts-Numbered r later [] n h = record { marks = Reads-nil; counted = omega arith }
render_conjuncts-Numbered r later (p ∷ ps) n (h, hs) =
    let o = render_predicate r p n in
    let rest = render_conjuncts r true ps o.next in
    let i = render_predicate-Numbered r p n h in
    let k = render_conjuncts-Numbered r true ps o.next hs in
    record {
      marks =
          Reads-append (conjunction later)
            (Reads-numbered n o.args rest.args i.marks i.counted k.marks);
      counted = omega (arith, i.counted, k.counted, length-append o.args rest.args);
    }
  where
    conjunction : (b : Bool) → Reads r (if b then codes " AND " else []) []
    conjunction true = literal r " AND " refl
    conjunction false = Reads-nil

pub render_clause-Numbered :
    (r : Renderer) (keyword : Text) (ps : List Predicate) (n : ℕ)
    → IsKeyword keyword
    → All (λ p. HasKeywords (words p)) ps
    → Numbered r n (render_clause r keyword ps n)
unfolding render_clause
render_clause-Numbered r keyword [] n k h = record { marks = Reads-nil; counted = omega arith }
render_clause-Numbered r keyword (p ∷ ps) n k h =
    let i = render_conjuncts-Numbered r false (p ∷ ps) n h in
    record { marks = Reads-append (Reads-plain r keyword k) i.marks; counted = i.counted }

pub Reads-render_table : (r : Renderer) (t : TableRef) → Reads r (render_table r t) []
unfolding render_table codes
Reads-render_table r t =
    Reads-append (schema_part t.schema)
      (Reads-append (Reads-quote_identifier r t.table_name) (alias_part t.alias))
  where
    schema_part :
        (s : Text) → Reads r (if is_empty s then [] else quote_identifier r s ++ codes ".") []
    schema_part [] = Reads-nil
    schema_part (c ∷ s) = Reads-append (Reads-quote_identifier r (c ∷ s)) (literal r "." refl)

    alias_part :
        (a : Text) → Reads r (if is_empty a then [] else codes " AS " ++ quote_identifier r a) []
    alias_part [] = Reads-nil
    alias_part (c ∷ a) = Reads-append (literal r " AS " refl) (Reads-quote_identifier r (c ∷ a))
