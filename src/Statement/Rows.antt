-- ===== src/Statement/Rows.antt =====
-- About `Row.Get` and `ScanRow` of statement.go: where a column's value is in a row.
use tiqq.Prelude.{
  ℕ, zero, suc, ◌+◌, ◌<◌, List, [], ◌∷◌, ◌++◌, Option, none, some, Text, codes, equal, equal_iff,
  length, get_elem?, get_elem?_total, Option-cases, if◌then◌else◌, Bool-cases, ok, err, errorf, ◌≡◌,
  ◌≢◌, inl, inr, refl, ap, subst, arith, ◌∙◌, map, Elem,
}
use native.Mathlib.Nat.{zero-add}
use tiqq.Value.{Value}
use tiqq.Column.{ColumnRef, id}
use tiqq.Statement.{
  Positions, position, Statement, record_positions, new_statement, Row, new_row, nils, Scanner,
  scan_row, raw_value,
}

abbrev pub ids : List ColumnRef → List Text
ids = map id

-- The index of the last column with the given id.
abbrev last_index : Text → List ColumnRef → Option ℕ
last_index k [] = none
last_index k (c ∷ cs) = elim (last_index k cs) [
  | some j ↦ some (suc j)
  | none ↦ if equal (id c) k then some 0 else none
]

abbrev shifted : ℕ → Option ℕ → Option ℕ → Option ℕ
shifted i (some j) o = some (i + j)
shifted i none o = o

position-record_positions :
    (k : Text) (i : ℕ) (cs : List ColumnRef) (m : Positions)
    → position k (record_positions i cs m) ≡ shifted i (last_index k cs) (position k m)
unfolding record_positions position
position-record_positions k i [] m = refl
position-record_positions k i (c ∷ cs) m =
    position-record_positions k (i + 1) cs ((id c, i) ∷ m) ∙ ground arith

-- `j` is the last place of a column with id `k`.
pub record IsLast (k : Text) (cs : List ColumnRef) (j : ℕ) : Type 0 where
  pub column : ColumnRef
  pub at_place : get_elem? cs j ≡ some column
  pub same_id : id column ≡ k
  pub last : (l : ℕ) (d : ColumnRef) → j < l → get_elem? cs l ≡ some d → id d ≢ k

get_elem?-Elem :
    (k : Text) (cs : List ColumnRef) (l : ℕ) (d : ColumnRef)
    → get_elem? cs l ≡ some d
    → id d ≡ k
    → Elem k (ids cs)
get_elem?-Elem k [] l d h e = cc
get_elem?-Elem k (c ∷ cs) zero d h e = inl (cc)
get_elem?-Elem k (c ∷ cs) (suc l) d h e = inr (get_elem?-Elem k cs l d h e)

last_index-none : (k : Text) (cs : List ColumnRef) → last_index k cs ≡ none → ¬ Elem k (ids cs)
last_index-none k [] h m = m
last_index-none k (c ∷ cs) h m = ground (arith, last_index-none k cs, equal_iff (id c) k)

IsLast-cons :
    {k : Text} (c : ColumnRef) {cs : List ColumnRef} {l : ℕ}
    → IsLast k cs l
    → IsLast k (c ∷ cs) (suc l)
IsLast-cons {k} c {cs} {l} h = record {
  column = h.column;
  at_place = h.at_place;
  same_id = h.same_id;
  last = λ n d lt e. later n d lt e;
}
  where
    later : (n : ℕ) (d : ColumnRef) → suc l < n → get_elem? (c ∷ cs) n ≡ some d → id d ≢ k
    later zero d lt e = absurd (omega arith)
    later (suc n) d lt e = h.last n d (omega arith) e

IsLast-here :
    {k : Text} {c : ColumnRef} {cs : List ColumnRef}
    → id c ≡ k
    → ¬ Elem k (ids cs)
    → IsLast k (c ∷ cs) 0
IsLast-here {k} {c} {cs} e absent = record {
  column = c;
  at_place = refl;
  same_id = e;
  last = later;
}
  where
    later : (n : ℕ) (d : ColumnRef) → 0 < n → get_elem? (c ∷ cs) n ≡ some d → id d ≢ k
    later zero d lt g = absurd (omega arith)
    later (suc n) d lt g = λ same. absent (get_elem?-Elem k cs n d g same)

last_index-some :
    (k : Text) (cs : List ColumnRef) (j : ℕ) → last_index k cs ≡ some j → IsLast k cs j
last_index-some k [] j h = cc
last_index-some k (c ∷ cs) j h = go (last_index-some k cs) (last_index k cs) refl j h
  where
    go :
        ((l : ℕ) → last_index k cs ≡ some l → IsLast k cs l)
        → (o : Option ℕ) → last_index k cs ≡ o
        → (i : ℕ)
        → elim o as (λ _. Option ℕ) [
          | some l ↦ some (suc l)
          | none ↦ if equal (id c) k then some 0 else none
        ]
          ≡ some i
        → IsLast k (c ∷ cs) i
    go earlier (some l) e i g =
        subst (IsLast k (c ∷ cs)) (let q : suc l ≡ i = ground arith in q)
          (IsLast-cons c (earlier l e))
    go earlier none e i g = elim (Bool-cases (equal (id c) k)) [
      | inl same ↦
          subst (IsLast k (c ∷ cs)) (let q : zero ≡ i = ground arith in q)
            (IsLast-here ((equal_iff (id c) k).0 same) (last_index-none k cs e))
      | inr differs ↦ cc (rw differs at g)
    ]

-- a place that holds an element is below the length
get_elem?-lt {ℓ} :
    {A : Type ℓ} (xs : List A) (i : ℕ) {a : A} → get_elem? xs i ≡ some a → i < length xs
get_elem?-lt [] i h = cc
get_elem?-lt (x ∷ xs) zero h = omega arith
get_elem?-lt (x ∷ xs) (suc i) h = omega (arith, get_elem?-lt xs i h)

shifted_zero : (o : Option ℕ) → shifted 0 o none ≡ o
shifted_zero none = refl
shifted_zero (some j) = ap some (zero-add j)

position_shape :
    (k t : Text) (vs : List Value) (cs : List ColumnRef)
    → position k (new_statement t vs cs).positions ≡ last_index k cs
unfolding new_statement position
position_shape k t vs cs = position-record_positions k 0 cs [] ∙ shifted_zero (last_index k cs)

new_row_shape :
    (s : Statement) (vs : List Value) {row : Row}
    → new_row s vs ≡ ok row
    → (length vs ≡ length s.projection) × (row ≡ record { statement = s; values = vs })
unfolding new_row
new_row_shape s vs h = ground arith

-- What `Get` reads of a column that is in the projection: the scanned value at the last place that
-- the projection gives to the column's id.
pub record Found (c : ColumnRef) (cs : List ColumnRef) (vs : List Value) (row : Row) : Type 0 where
  pub place : ℕ
  pub value : Value
  pub is_last : IsLast (id c) cs place
  pub scanned : get_elem? vs place ≡ some value
  pub read : raw_value row c ≡ ok value

module _ (t : Text) (args : List Value) (cs : List ColumnRef) (vs : List Value) {row : Row}
    (made : new_row (new_statement t args cs) vs ≡ ok row) (c : ColumnRef) where
  row_fields :
      (length vs ≡ length cs)
      × (row.statement.positions ≡ (new_statement t args cs).positions)
      × (row.values ≡ vs)
  unfolding new_statement
  row_fields =
      let (n, e) = new_row_shape (new_statement t args cs) vs made in
      (n, ap (λ (r : Row). r.statement.positions) e, ap (λ (r : Row). r.values) e)

  row_position : position (id c) row.statement.positions ≡ last_index (id c) cs
  row_position = ap (position (id c)) row_fields.1 ∙ position_shape (id c) t args cs

  -- In a row that `NewRow` made for a statement, a column whose id is in the projection is read
  -- without an error, as the value at the last place that the projection gives to that id.
  pub raw_value-projected : Elem (id c) (ids cs) → Found c cs vs row
  raw_value-projected m = elim (Option-cases (last_index (id c) cs)) [
    | inl e ↦ absurd (last_index-none (id c) cs e m)
    | inr (j, e) ↦
        let l = last_index-some (id c) cs j e in
        let lt : j < length vs = omega (arith, row_fields.0, get_elem?-lt cs j l.at_place) in
        let (v, g) = get_elem?_total vs j lt in
        record {
          place = j;
          value = v;
          is_last = l;
          scanned = g;
          read = unfold raw_value in rw (row_position ∙ e, row_fields.2, g) refl;
        }
  ]

  -- In a row that `NewRow` made for a statement, reading a column whose id is not in the projection
  -- is the error that it is not in the projection.
  pub raw_value-not_projected :
      ¬ Elem (id c) (ids cs)
      → raw_value row c
        ≡ err (errorf (codes "tiqq: column " ++ (id c ++ codes " is not in the projection")))
  raw_value-not_projected m = elim (Option-cases (last_index (id c) cs)) [
    | inl e ↦ unfold raw_value in rw (row_position ∙ e) refl
    | inr (j, e) ↦
        let l = last_index-some (id c) cs j e in
        absurd (m (get_elem?-Elem (id c) cs j l.column l.at_place l.same_id))
  ]

length-nils : (n : ℕ) → length (nils n) ≡ n
unfolding nils
length-nils zero = refl
length-nils (suc n) = ap suc (length-nils n)

-- A driver fills the destinations that it is given, and changes their number never.
abbrev pub KeepsLength : Scanner → Type 0
KeepsLength scanner = (ds vs : List Value) → scanner ds ≡ ok vs → length vs ≡ length ds

-- If the driver keeps the number of destinations and scans the row, `ScanRow` returns the row with
-- the scanned values.
pub scan_row-ok :
    (scanner : Scanner) (s : Statement) (vs : List Value)
    → KeepsLength scanner
    → scanner (nils (length s.projection)) ≡ ok vs
    → scan_row scanner s ≡ ok (record { statement = s; values = vs })
unfolding scan_row
scan_row-ok scanner s vs keeps h =
    ground (arith, keeps (nils (length s.projection)) vs h, length-nils (length s.projection))
