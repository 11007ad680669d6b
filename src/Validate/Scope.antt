-- ===== src/Validate/Scope.antt =====
-- About the shared checks of query.go and returning.go, and what RETURNING writes.
use tiqq.Prelude.{
  Bool, true, false, not, ◌&&◌, List, [], ◌∷◌, map, Text, codes, equal, join, separated, KeySet,
  has_iff, Elem, All, ok, errorf, >>_iff, fail_if_iff, fail_if, ◌≡◌, ◌≢◌, ◌↔◌, inl, inr, ◌⊎◌, refl,
  arith,
}
use tiqq.Dialect.{
  Renderer, postgres_renderer, mysql_renderer, sqlite_renderer, name, quote_identifier, TableRef,
  qualifier,
}
use tiqq.Column.{ColumnRef, column_qualifier, column_name, is_aggregate}
use tiqq.Predicate.{Predicate, predicate_columns}
use tiqq.Predicate.Params.{literal}
use tiqq.Scan.{Reads, Reads-nil, Reads-append, Reads-quote_identifier}
use tiqq.Validate.{
  validate_columns, validate_no_aggregates, validate_predicates, validate_returning,
  render_returning, is_nil,
}

abbrev pub InScope : KeySet → ColumnRef → Type 0
InScope allowed c = Elem (column_qualifier c) allowed

abbrev pub IsPlainColumn : ColumnRef → Type 0
IsPlainColumn c = is_aggregate c ≡ false

-- A predicate that a WHERE or ON clause accepts.
pub record Fits (allowed : KeySet) (p : Predicate) : Type 0 where
  pub in_scope : All (InScope allowed) (predicate_columns p)
  pub no_aggregate : All IsPlainColumn (predicate_columns p)

pub validate_columns_iff :
    (clause : Text) (cs : List ColumnRef) (allowed : KeySet)
    → (validate_columns clause cs allowed ≡ ok tt) ↔ All (InScope allowed) cs
unfolding validate_columns
validate_columns_iff clause [] allowed = ((λ h. tt), λ h. refl)
validate_columns_iff clause (c ∷ cs) allowed =
    ground (arith, has_iff allowed (column_qualifier c), validate_columns_iff clause cs allowed)

pub validate_no_aggregates_iff :
    (clause : Text) (cs : List ColumnRef)
    → (validate_no_aggregates clause cs ≡ ok tt) ↔ All IsPlainColumn cs
unfolding validate_no_aggregates
validate_no_aggregates_iff clause [] = ((λ h. tt), λ h. refl)
validate_no_aggregates_iff clause (c ∷ cs) = ground (arith, validate_no_aggregates_iff clause cs)

pub validate_predicates_iff :
    (clause : Text) (ps : List Predicate) (allowed : KeySet)
    → (validate_predicates clause ps allowed ≡ ok tt) ↔ All (Fits allowed) ps
unfolding validate_predicates
validate_predicates_iff clause [] allowed = ((λ h. tt), λ h. refl)
validate_predicates_iff clause (p ∷ ps) allowed =
    let i = >>_iff _ _ (validate_columns_iff clause (predicate_columns p) allowed) (
      >>_iff _ _ (validate_no_aggregates_iff clause (predicate_columns p))
        (validate_predicates_iff clause ps allowed)) in
    (
      (λ h.
          let (scope, (plain, rest)) = i.0 h in
          (record { in_scope = scope; no_aggregate = plain }, rest)),
      λ (f, rest). i.1 (f.in_scope, (f.no_aggregate, rest)),
    )

-- A RETURNING clause that is accepted: none, or one with columns of the table on a dialect that has it.
pub record Returns (r : Renderer) (t : TableRef) (cs : List ColumnRef) : Type 0 where
  pub supported : r ≢ mysql_renderer
  pub some_column : cs ≢ []
  pub in_scope : All (InScope (qualifier t ∷ [])) cs
  pub no_aggregate : All IsPlainColumn cs

supported_iff : (r : Renderer) → (equal (name r) (codes "mysql") ≡ false) ↔ (r ≢ mysql_renderer)
unfolding name equal codes
supported_iff postgres_renderer = ((λ h e. cc), λ h. refl)
supported_iff mysql_renderer = ((λ h e. cc), λ h. absurd (h refl))
supported_iff sqlite_renderer = ((λ h e. cc), λ h. refl)

pub is_nil_iff {ℓ} : {A : Type ℓ} (xs : List A) → (is_nil xs ≡ false) ↔ (xs ≢ [])
is_nil_iff [] = ((λ h e. cc), λ h. absurd (h refl))
is_nil_iff (x ∷ xs) = ((λ h e. cc), λ h. refl)

-- The guard of UPDATE and DELETE against an unintended change of all rows.
pub guarded_iff {ℓ} :
    {A : Type ℓ} (xs : List A) (b : Bool)
    → ((is_nil xs && not b) ≡ false) ↔ ((xs ≢ []) ⊎ (b ≡ true))
guarded_iff [] true = ((λ h. inr refl), λ h. refl)
guarded_iff [] false = ((λ h. cc), λ h. ground arith)
guarded_iff (x ∷ xs) b = ((λ h. inl cc), λ h. refl)

pub validate_returning_iff :
    (r : Renderer) (t : TableRef) (cs : List ColumnRef) (requested : Bool)
    → (validate_returning r t cs requested ≡ ok tt) ↔ ((requested ≡ true) → Returns r t cs)
unfolding validate_returning
validate_returning_iff r t cs false = ((λ h e. cc), λ h. refl)
validate_returning_iff r t cs true =
    let i =
      >>_iff
        (fail_if (equal (name r) (codes "mysql"))
          (errorf (codes "tiqq: mysql does not support RETURNING")))
        _ (fail_if_iff _ _)
        (>>_iff
          (fail_if (is_nil cs) (errorf (codes "tiqq: RETURNING requires at least one column"))) _
          (fail_if_iff _ _)
          (>>_iff _ _ (validate_columns_iff (codes "RETURNING") cs (qualifier t ∷ []))
            (validate_no_aggregates_iff (codes "RETURNING") cs))) in
    (
      (λ h _.
          let (not_mysql, (not_nil, (scope, plain))) = i.0 h in
          record {
            supported = (supported_iff r).0 not_mysql;
            some_column = (is_nil_iff cs).0 not_nil;
            in_scope = scope;
            no_aggregate = plain;
          }),
      λ h.
          let v = h refl in
          i.1 (
            (supported_iff r).1 v.supported,
            ((is_nil_iff cs).1 v.some_column, (v.in_scope, v.no_aggregate)),
          ),
    )

Reads-separated-quoted :
    (r : Renderer) (cs : List ColumnRef)
    → Reads r (separated (codes ", ") (map (λ d. quote_identifier r (column_name d)) cs)) []
unfolding separated codes
Reads-separated-quoted r [] = Reads-nil
Reads-separated-quoted r (c ∷ cs) =
    Reads-append (literal r ", " refl)
      (Reads-append (Reads-quote_identifier r (column_name c)) (Reads-separated-quoted r cs))

pub Reads-join-quoted :
    (r : Renderer) (cs : List ColumnRef)
    → Reads r (join (codes ", ") (map (λ d. quote_identifier r (column_name d)) cs)) []
unfolding join
Reads-join-quoted r [] = Reads-nil
Reads-join-quoted r (c ∷ cs) =
    Reads-append (Reads-quote_identifier r (column_name c)) (Reads-separated-quoted r cs)

pub Reads-render_returning :
    (r : Renderer) (cs : List ColumnRef) → Reads r (render_returning r cs) []
unfolding render_returning codes
Reads-render_returning r [] = Reads-nil
Reads-render_returning r (c ∷ cs) =
    Reads-append (literal r " RETURNING " refl) (Reads-join-quoted r (c ∷ cs))
