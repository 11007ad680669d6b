-- ===== src/Statement.antt =====
-- statement.go: built statements and scanned rows. A database driver's `Scan` is a parameter.
pub mod Rows
pub mod Convert
use tiqq.Prelude.{
  ℕ, zero, suc, ◌+◌, Bool, true, false, not, List, [], ◌∷◌, ◌++◌, Option, none, some, Text, codes,
  decimal, equal, length, get_elem?, ◌==◌, if◌then◌else◌, Result, ok, err, Error, errorf, panic,
  ◌>>=◌, ◌>>◌, fail_if,
}
use tiqq.Value.{Value, null}
use tiqq.Column.{ColumnRef, id}

-- `map[string]int`: a later assignment hides an earlier one.
abbrev pub Positions : Type 0
Positions = List (Text × ℕ)

unfoldable pub position : Text → Positions → Option ℕ
position k [] = none
position k ((j, i) ∷ m) = if equal j k then some i else position k m

pub record Statement : Type 0 where
  pub sql : Text
  pub args : List Value
  pub projection : List ColumnRef
  pub positions : Positions

-- The loop of `newStatement` from index `i` on.
unfoldable pub record_positions : ℕ → List ColumnRef → Positions → Positions
record_positions i [] m = m
record_positions i (c ∷ cs) m = record_positions (i + 1) cs ((id c, i) ∷ m)

unfoldable pub new_statement : Text → List Value → List ColumnRef → Statement
unfolding record_positions
new_statement t vs cs = record {
  sql = t;
  args = vs;
  projection = cs;
  positions = record_positions 0 cs [];
}

-- `MustBuild` of the builders: an error becomes a panic.
unfoldable pub must : Result Statement → Result Statement
must (ok s) = ok s
must (err (errorf e)) = err (panic e)
must (err (panic e)) = err (panic e)

pub record Row : Type 0 where
  pub statement : Statement
  pub values : List Value

unfoldable pub new_row : Statement → List Value → Result Row
new_row s vs =
    if not (length vs == length s.projection)
    then err (
        errorf (
          codes "tiqq: got "
          ++ (decimal (length vs)
              ++ (codes " values for "
                  ++ (decimal (length s.projection) ++ codes " projected columns")))))
    else ok (record { statement = s; values = vs })

-- `make([]any, n)`
unfoldable pub nils : ℕ → List Value
nils zero = []
nils (suc n) = null ∷ nils n

-- What `Scan` leaves behind in the destinations, or its error's text.
abbrev pub Scanner : Type 0
Scanner = List Value → Result (List Value)

abbrev pub wrap_scan : Result (List Value) → Result (List Value)
wrap_scan (ok vs) = ok vs
wrap_scan (err (errorf e)) = err (errorf (codes "tiqq: scan row: " ++ e))
wrap_scan (err (panic e)) = err (panic e)

unfoldable pub scan_row : Scanner → Statement → Result Row
unfolding new_row nils
scan_row scanner s = do vs ← wrap_scan (scanner (nils (length s.projection))); new_row s vs

-- An index out of range panics.
unfoldable pub indexed : Option Value → Result Value
indexed none = err (panic (codes "index out of range"))
indexed (some v) = ok v

unfoldable pub value_at : ColumnRef → List Value → Option ℕ → Result Value
unfolding indexed
value_at c vs none =
    err (errorf (codes "tiqq: column " ++ (id c ++ codes " is not in the projection")))
value_at c vs (some i) = indexed (get_elem? vs i)

-- The first part of `Row.Get`: the scanned value of a column.
unfoldable pub raw_value : Row → ColumnRef → Result Value
unfolding value_at
raw_value r c = value_at c r.values (position (id c) r.statement.positions)
