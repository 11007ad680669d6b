-- ===== src/Insert/Rows.antt =====
-- About the loop of `InsertQuery.Build` in insert.go that checks the rows and orders their values.
use tiqq.Prelude.{
  ℕ, ◌+◌, true, false, List, [], ◌∷◌, Option, none, some, Text, KeySet, has, has_iff, Elem,
  Distinct, Fresh, Fresh-iff, equal, equal_iff, All, Bool-cases, ok, fail_if, fail_if_iff,
  >>=-eq-ok, >>-eq-ok, ok-injective, Succeeds, ◌≡◌, ◌≢◌, ◌↔◌, inl, inr, refl, subst, sym, ap, ◌∙◌,
  arith,
}
use tiqq.Dialect.{qualifier}
use tiqq.Column.{InsertValue, column_qualifier}
use tiqq.Validate.Scope.{is_nil_iff}
use tiqq.Insert.{
  InsertQuery, value_name, names, check_values, check_required, find, found_or, in_order,
  check_expected, normalize_row, normalize_rows,
}

-- A value for an insertable column of the table.
abbrev pub IsInsertable : InsertQuery → InsertValue → Type 0
IsInsertable q v =
    (column_qualifier v.target ≡ qualifier q.table) × Elem (value_name v) q.insertable

-- A row that may be inserted beside a first row with the given columns.
pub record IsRow (q : InsertQuery) (first : List Text) (row : List InsertValue) : Type 0 where
  pub some_value : row ≢ []
  pub insertable : All (IsInsertable q) row
  pub once : Distinct (names row)
  pub complete : All (λ k. Elem k (names row)) q.required
  pub no_missing : All (λ k. Elem k (names row)) first
  pub no_unexpected : All (λ v. Elem (value_name v) first) row

check_values_iff :
    (q : InsertQuery) (seen : KeySet) (vs : List InsertValue)
    → (check_values q seen vs ≡ ok tt) ↔ (All (IsInsertable q) vs × Fresh seen (names vs))
unfolding check_values
check_values_iff q seen [] = ((λ h. (tt, tt)), λ h. refl)
check_values_iff q seen (v ∷ vs) = ground (
  arith,
  equal_iff (column_qualifier v.target) (qualifier q.table),
  has_iff q.insertable (value_name v),
  has_iff seen (value_name v),
  check_values_iff q (value_name v ∷ seen) vs,
)

check_required_iff :
    (q : InsertQuery) (number : ℕ) (seen : KeySet) (ks : List Text)
    → (check_required q number seen ks ≡ ok tt) ↔ All (λ k. Elem k seen) ks
unfolding check_required
check_required_iff q number seen [] = ((λ h. tt), λ h. refl)
check_required_iff q number seen (k ∷ ks) =
    ground (arith, has_iff seen k, check_required_iff q number seen ks)

check_expected_iff :
    (q : InsertQuery) (number : ℕ) (first : KeySet) (vs : List InsertValue)
    → (check_expected q number first vs ≡ ok tt) ↔ All (λ v. Elem (value_name v) first) vs
unfolding check_expected
check_expected_iff q number first [] = ((λ h. tt), λ h. refl)
check_expected_iff q number first (v ∷ vs) =
    ground (arith, has_iff first (value_name v), check_expected_iff q number first vs)

find-some :
    (k : Text) (vs : List InsertValue) (v : InsertValue) → find k vs ≡ some v → value_name v ≡ k
unfolding find
find-some k [] v h = cc
find-some k (w ∷ ws) v h = ground (arith, equal_iff (value_name w) k, find-some k ws v)

find-Elem :
    (k : Text) (vs : List InsertValue)
    → Elem k (names vs)
    → (v : InsertValue) × (find k vs ≡ some v)
unfolding find
find-Elem k [] m = absurd m
find-Elem k (w ∷ ws) m = elim (Bool-cases (equal (value_name w) k)) [
  | inl same ↦ (w, rw same)
  | inr differs ↦ rw differs (elim m [
    | inl e ↦ cc (sym differs ∙ (equal_iff (value_name w) k).1 e)
    | inr later ↦ find-Elem k ws later
  ])
]

found-Elem :
    (k : Text) (vs : List InsertValue) (v : InsertValue) → find k vs ≡ some v → Elem k (names vs)
unfolding find
found-Elem k [] v h = cc
found-Elem k (w ∷ ws) v h = ground (arith, equal_iff (value_name w) k, found-Elem k ws v)

find-absent : (k : Text) (vs : List InsertValue) → ¬ Elem k (names vs) → find k vs ≡ none
unfolding find
find-absent k [] h = refl
find-absent k (w ∷ ws) h = ground (arith, equal_iff (value_name w) k, find-absent k ws)

-- The values found for the columns, in their order.
pub record IsOrdered (row : List InsertValue) (ks : List Text) (vs : List InsertValue)
    : Type 0 where
  pub columns : names vs ≡ ks
  pub same_values : (k : Text) → Elem k ks → find k vs ≡ find k row

found_or-ok :
    (q : InsertQuery) (number : ℕ) (k : Text) (o : Option InsertValue) (v : InsertValue)
    → found_or q number k o ≡ ok v
    → o ≡ some v
unfolding found_or
found_or-ok q number k none v h = cc
found_or-ok q number k (some w) v h = ap some (ok-injective h)

IsOrdered-cons :
    {row : List InsertValue} {k : Text} {ks : List Text} (v : InsertValue) {vs : List InsertValue}
    → find k row ≡ some v
    → IsOrdered row ks vs
    → IsOrdered row (k ∷ ks) (v ∷ vs)
unfolding find
IsOrdered-cons {row} {k} {ks} v {vs} e h = record {
  columns = cc (find-some k row v e, h.columns);
  same_values = λ j m. same j m;
}
  where
    same : (j : Text) → Elem j (k ∷ ks) → find j (v ∷ vs) ≡ find j row
    same j m = elim (Bool-cases (equal (value_name v) j)) [
      | inl here ↦ rw here (
          sym e
          ∙ ap (λ x. find x row) (sym (find-some k row v e) ∙ (equal_iff (value_name v) j).0 here))
      | inr later ↦ rw later (elim m [
        | inl kj ↦ cc (sym later ∙ (equal_iff (value_name v) j).1 (find-some k row v e ∙ kj))
        | inr rest ↦ h.same_values j rest
      ])
    ]

in_order-IsOrdered :
    (q : InsertQuery) (number : ℕ) (row : List InsertValue) (ks : List Text) (vs : List InsertValue)
    → in_order q number row ks ≡ ok vs
    → IsOrdered row ks vs
unfolding in_order
in_order-IsOrdered q number row [] vs h =
    subst (IsOrdered row []) (ok-injective h)
      (record { columns = refl; same_values = λ k m. absurd m })
in_order-IsOrdered q number row (k ∷ ks) vs h =
    let (v, here, later) = >>=-eq-ok (found_or q number k (find k row)) _ h in
    let (ws, rest, same) = >>=-eq-ok (in_order q number row ks) _ later in
    subst (IsOrdered row (k ∷ ks)) (ok-injective same) (
      IsOrdered-cons v (found_or-ok q number k (find k row) v here)
        (in_order-IsOrdered q number row ks ws rest))

in_order-total :
    (q : InsertQuery) (number : ℕ) (row : List InsertValue) (ks : List Text)
    → All (λ k. Elem k (names row)) ks
    → Succeeds (in_order q number row ks)
unfolding in_order found_or
in_order-total q number row [] h = ([], refl)
in_order-total q number row (k ∷ ks) (m, ms) =
    let (v, e) = find-Elem k row m in
    let (vs, rest) = in_order-total q number row ks ms in (v ∷ vs, rw (e, rest) refl)

in_order-missing :
    (q : InsertQuery) (number : ℕ) (row : List InsertValue) (ks : List Text) (vs : List InsertValue)
    → in_order q number row ks ≡ ok vs
    → All (λ k. Elem k (names row)) ks
unfolding in_order
in_order-missing q number row [] vs h = tt
in_order-missing q number row (k ∷ ks) vs h =
    let (v, here, later) = >>=-eq-ok (found_or q number k (find k row)) _ h in
    let (ws, rest, same) = >>=-eq-ok (in_order q number row ks) _ later in
    (
      found-Elem k row v (found_or-ok q number k (find k row) v here),
      in_order-missing q number row ks ws rest,
    )

-- The accepted row holds the same value for each column, in the order of the first row's columns.
pub record IsNormalized (first : List Text) (row vs : List InsertValue) : Type 0 where
  pub columns : names vs ≡ first
  pub same_values : (k : Text) → find k vs ≡ find k row

All-Elem-names :
    (first : List Text) (row : List InsertValue) (k : Text)
    → All (λ v. Elem (value_name v) first) row
    → Elem k (names row)
    → Elem k first
All-Elem-names first [] k a m = absurd m
All-Elem-names first (v ∷ vs) k (a, rest) (inl e) = subst (λ x. Elem x first) e a
All-Elem-names first (v ∷ vs) k (a, rest) (inr m) = All-Elem-names first vs k rest m

IsOrdered-IsNormalized :
    {first : List Text} {row vs : List InsertValue}
    → IsOrdered row first vs
    → All (λ v. Elem (value_name v) first) row
    → IsNormalized first row vs
IsOrdered-IsNormalized {first} {row} {vs} h a = record {
  columns = h.columns;
  same_values = λ k. elim (Bool-cases (has first k)) [
    | inl m ↦ h.same_values k ((has_iff first k).0 m)
    | inr absent ↦
        let no = λ (m : Elem k first).
          (let bad : false ≡ true = sym absent ∙ (has_iff first k).1 m in bad) in
        find-absent k vs (λ m. cc (no (subst (Elem k) h.columns m)))
        ∙ sym (find-absent k row (λ m. cc (no (All-Elem-names first row k a m))))
  ];
}

abbrev pub AllNormalized : List Text → List (List InsertValue) → List (List InsertValue) → Type 0
AllNormalized first [] [] = Unit
AllNormalized first (row ∷ rows) (vs ∷ out) =
    IsNormalized first row vs × AllNormalized first rows out
AllNormalized first _ _ = ⊥

normalize_row-ok :
    (q : InsertQuery) (first : List Text) (number : ℕ) (row vs : List InsertValue)
    → normalize_row q first number row ≡ ok vs
    → IsRow q first row × IsNormalized first row vs
unfolding normalize_row
normalize_row-ok q first number row vs h =
    let (a, h1) = >>-eq-ok (fail_if _ _) _ h in
    let (b, h2) = >>-eq-ok (check_values q [] row) _ h1 in
    let (c, h3) = >>-eq-ok (check_required q number (names row) q.required) _ h2 in
    let (ws, d, h4) = >>=-eq-ok (in_order q number row first) _ h3 in
    let (e, same) = >>-eq-ok (check_expected q number first row) _ h4 in
    let (good, fresh) = (check_values_iff q [] row).0 b in
    let expected = (check_expected_iff q number first row).0 e in
    (
      record {
        some_value = (is_nil_iff row).0 ((fail_if_iff _ _).0 a);
        insertable = good;
        once = (Fresh-iff (names row)).0 fresh;
        complete = (check_required_iff q number (names row) q.required).0 c;
        no_missing = in_order-missing q number row first ws d;
        no_unexpected = expected;
      },
      subst (IsNormalized first row) (ok-injective same)
          (IsOrdered-IsNormalized (in_order-IsOrdered q number row first ws d) expected),
    )

normalize_row-total :
    (q : InsertQuery) (first : List Text) (number : ℕ) (row : List InsertValue)
    → IsRow q first row
    → Succeeds (normalize_row q first number row)
unfolding normalize_row
normalize_row-total q first number row h =
    let (vs, e) = in_order-total q number row first h.no_missing in
    (
      vs,
      rw
          (
            (is_nil_iff row).1 h.some_value,
            (check_values_iff q [] row).1 (h.insertable, (Fresh-iff (names row)).1 h.once),
            (check_required_iff q number (names row) q.required).1 h.complete,
            e,
            (check_expected_iff q number first row).1 h.no_unexpected,
          )
          refl,
    )

-- If the loop over the rows succeeds, every row is acceptable beside the first row's columns, and
-- every row comes out with exactly those columns, in their order, and with its own value for each.
pub normalize_rows-ok :
    (q : InsertQuery) (first : List Text) (number : ℕ) (rows out : List (List InsertValue))
    → normalize_rows q first number rows ≡ ok out
    → All (IsRow q first) rows × AllNormalized first rows out
unfolding normalize_rows
normalize_rows-ok q first number [] out h = (tt, subst (AllNormalized first []) (ok-injective h) tt)
normalize_rows-ok q first number (row ∷ rows) out h =
    let (vs, here, h1) = >>=-eq-ok (normalize_row q first number row) _ h in
    let (rest, later, same) = >>=-eq-ok (normalize_rows q first (number + 1) rows) _ h1 in
    let (good, normal) = normalize_row-ok q first number row vs here in
    let (goods, normals) = normalize_rows-ok q first (number + 1) rows rest later in
    ((good, goods), subst (AllNormalized first (row ∷ rows)) (ok-injective same) (normal, normals))

-- The loop over the rows succeeds if every row is acceptable beside the first row's columns: it is
-- not empty, gives each column once, only insertable columns of the table, all required ones, and
-- the same ones as the first row.
pub normalize_rows-total :
    (q : InsertQuery) (first : List Text) (number : ℕ) (rows : List (List InsertValue))
    → All (IsRow q first) rows
    → Succeeds (normalize_rows q first number rows)
unfolding normalize_rows
normalize_rows-total q first number [] h = ([], refl)
normalize_rows-total q first number (row ∷ rows) (h, hs) =
    let (vs, e) = normalize_row-total q first number row h in
    let (rest, f) = normalize_rows-total q first (number + 1) rows hs in (vs ∷ rest, rw (e, f) refl)
