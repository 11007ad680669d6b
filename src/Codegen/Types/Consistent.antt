-- ===== src/Codegen/Types/Consistent.antt =====
-- About the two switches over database types in codegen/generate.go, goType and numericAggregateTypes.
use tiqq.Prelude.{
  Bool, true, false, ◌||◌, [], ◌∷◌, none, some, Text, codes, KeySet, has, has_iff, Elem, equal, All,
  if◌then◌else◌, Bool-cases, ◌≡◌, inl, inr, refl, subst, arith,
}
use tiqq.Schema.{SchemaDialect, mysql, sqlite, Column}
use tiqq.Codegen.Types.{
  GoType, uuid_type, json_type, time_type, decimal_type, int8, int16, int32, int64, uint8, uint16,
  uint32, uint64, float32, float64, is_uuid_type, is_json_type, is_time_type, Affinity, blob,
  integer, text, real, numeric, sqlite_affinity, Aggregates, sqlite_aggregates, mysql_exact,
  mysql_inexact, mysql_aggregates, postgres_small, postgres_large, postgres_aggregates,
  dialect_aggregates, numeric_aggregate_types, sqlite_type, mysql_type, postgres_type, dialect_type,
  go_type, sized,
}

-- Numbers are exact, inexact (binary floating point), or no numbers at all.
pub data Class : Type 0 where
  exact inexact other : Class

abbrev pub class : GoType → Class
class decimal_type = exact
class int8 = exact
class int16 = exact
class int32 = exact
class int64 = exact
class uint8 = exact
class uint16 = exact
class uint32 = exact
class uint64 = exact
class float32 = inexact
class float64 = inexact
class _ = other

-- SUM and AVG of types `s` and `a`, for a class of numbers.
abbrev pub for_class : Class → GoType → GoType → Aggregates
for_class other s a = none
for_class _ s a = some (s, a)

-- The widest type of a class of numbers.
abbrev pub widest : Class → GoType
widest inexact = float64
widest _ = decimal_type

-- The types of SUM and AVG of the numbers of a Go type, by dialect. SQLite adds up in the type of the
-- column, and takes floating point averages of integers.
abbrev pub sqlite_average : GoType → GoType
sqlite_average decimal_type = decimal_type
sqlite_average _ = float64

abbrev pub sqlite_of : GoType → Aggregates
sqlite_of g = for_class (class g) g (sqlite_average g)

-- MySQL has both in the widest type.
abbrev pub mysql_of : GoType → Aggregates
mysql_of g = for_class (class g) (widest (class g)) (widest (class g))

-- PostgreSQL adds up small integers as 64-bit ones, and floating point numbers in their own type.
abbrev pub postgres_sum : GoType → GoType
postgres_sum int16 = int64
postgres_sum int32 = int64
postgres_sum float32 = float32
postgres_sum float64 = float64
postgres_sum _ = decimal_type

abbrev pub postgres_of : GoType → Aggregates
postgres_of g = for_class (class g) (postgres_sum g) (widest (class g))

abbrev pub aggregates_of : SchemaDialect → GoType → Aggregates
aggregates_of sqlite g = sqlite_of g
aggregates_of mysql g = mysql_of g
aggregates_of _ g = postgres_of g

for_class-other : (g s a : GoType) → class g ≡ other → for_class (class g) s a ≡ none
for_class-other g s a h = rw h refl

All-Elem : (P : Text → Type 0) (ks : KeySet) (k : Text) → All P ks → Elem k ks → P k
All-Elem P [] k a m = absurd m
All-Elem P (j ∷ ks) k (a, rest) (inl e) = subst P e a
All-Elem P (j ∷ ks) k (a, rest) (inr m) = All-Elem P ks k rest m

All-has : (P : Text → Type 0) (ks : KeySet) (k : Text) → All P ks → has ks k ≡ true → P k
All-has P ks k a h = All-Elem P ks k a ((has_iff ks k).0 h)

-- What one of the functions above makes of the type of a database type.
abbrev HasAggregates : (GoType → Aggregates) → (Text → GoType) → Aggregates → Text → Type 0
HasAggregates of f a t = of (f t) ≡ a

abbrev postgres_single : KeySet
postgres_single = codes "float4" ∷ codes "real" ∷ []

abbrev postgres_double : KeySet
postgres_double = codes "float8" ∷ codes "double precision" ∷ []

abbrev HasPostgres : GoType → GoType → Text → Type 0
HasPostgres s a = HasAggregates postgres_of postgres_type (some (s, a))

small_aggregates : All (HasPostgres int64 decimal_type) postgres_small
unfolding postgres_type codes equal
small_aggregates = (refl, (refl, (refl, (refl, (refl, (refl, tt))))))

large_aggregates : All (HasPostgres decimal_type decimal_type) postgres_large
unfolding postgres_type codes equal
large_aggregates = (refl, (refl, (refl, (refl, (refl, tt)))))

single_aggregates : All (HasPostgres float32 float64) postgres_single
unfolding postgres_type codes equal
single_aggregates = (refl, (refl, tt))

double_aggregates : All (HasPostgres float64 float64) postgres_double
unfolding postgres_type codes equal
double_aggregates = (refl, (refl, tt))

postgres_other :
    (t : Text)
    → has postgres_small t ≡ false
    → has postgres_large t ≡ false
    → has postgres_single t ≡ false
    → has postgres_double t ≡ false
    → class (postgres_type t) ≡ other
unfolding postgres_type
postgres_other t a b c d = ground arith

postgres_same : (t : Text) → postgres_of (postgres_type t) ≡ postgres_aggregates t
unfolding postgres_aggregates
postgres_same t = elim (Bool-cases (has postgres_small t)) [
  | inl s ↦ rw s (All-has (HasPostgres int64 decimal_type) postgres_small t small_aggregates s)
  | inr a ↦ rw a (elim (Bool-cases (has postgres_large t)) [
    | inl l ↦
        rw l (All-has (HasPostgres decimal_type decimal_type) postgres_large t large_aggregates l)
    | inr b ↦ rw b (elim (Bool-cases (has postgres_single t)) [
      | inl f ↦ rw f (All-has (HasPostgres float32 float64) postgres_single t single_aggregates f)
      | inr c ↦ rw c (elim (Bool-cases (has postgres_double t)) [
        | inl g ↦ rw g (All-has (HasPostgres float64 float64) postgres_double t double_aggregates g)
        | inr d ↦ rw d (for_class-other (postgres_type t) _ _ (postgres_other t a b c d))
      ])
    ])
  ])
]

module _ (unsigned : Bool) where
  abbrev HasMysql : GoType → Text → Type 0
  HasMysql w = HasAggregates mysql_of (λ t. mysql_type t unsigned) (some (w, w))

  mysql_of-sized :
      (u s : GoType)
      → class u ≡ exact
      → class s ≡ exact
      → mysql_of (sized unsigned u s) ≡ some (decimal_type, decimal_type)
  mysql_of-sized u s h k = elim (Bool-cases unsigned) [
    | inl set ↦ rw (set, h) refl
    | inr clear ↦ rw (clear, k) refl
  ]

  exact_aggregates : All (HasMysql decimal_type) mysql_exact
  unfolding mysql_type codes equal
  exact_aggregates = (
    mysql_of-sized uint8 int8 refl refl,
    (
      mysql_of-sized uint16 int16 refl refl,
      (
        mysql_of-sized uint32 int32 refl refl,
        (
          mysql_of-sized uint32 int32 refl refl,
          (
            mysql_of-sized uint32 int32 refl refl,
            (mysql_of-sized uint64 int64 refl refl, (refl, (refl, tt))),
          ),
        ),
      ),
    ),
  )

  inexact_aggregates : All (HasMysql float64) mysql_inexact
  unfolding mysql_type codes equal
  inexact_aggregates = (refl, (refl, (refl, tt)))

  mysql_other :
      (t : Text)
      → has mysql_exact t ≡ false
      → has mysql_inexact t ≡ false
      → class (mysql_type t unsigned) ≡ other
  unfolding mysql_type
  mysql_other t a b = ground arith

  mysql_same : (t : Text) → mysql_of (mysql_type t unsigned) ≡ mysql_aggregates t
  unfolding mysql_aggregates
  mysql_same t = elim (Bool-cases (has mysql_exact t)) [
    | inl e ↦ rw e (All-has (HasMysql decimal_type) mysql_exact t exact_aggregates e)
    | inr a ↦ rw a (elim (Bool-cases (has mysql_inexact t)) [
      | inl i ↦ rw i (All-has (HasMysql float64) mysql_inexact t inexact_aggregates i)
      | inr b ↦ rw b (for_class-other (mysql_type t unsigned) _ _ (mysql_other t a b))
    ])
  ]

sqlite_same : (a : Affinity) → sqlite_of (sqlite_type a) ≡ sqlite_aggregates a
unfolding sqlite_type sqlite_aggregates
sqlite_same blob = refl
sqlite_same integer = refl
sqlite_same text = refl
sqlite_same real = refl
sqlite_same numeric = refl

dialect_same :
    (d : SchemaDialect) (c : Column)
    → aggregates_of d (dialect_type d c) ≡ dialect_aggregates d c.db_type
unfolding dialect_type dialect_aggregates
dialect_same sqlite c = sqlite_same (sqlite_affinity c.db_type)
dialect_same mysql c = mysql_same c.unsigned c.db_type
dialect_same _ c = postgres_same c.db_type

aggregates_of-none : (d : SchemaDialect) (g : GoType) → class g ≡ other → aggregates_of d g ≡ none
aggregates_of-none sqlite g h = for_class-other g _ _ h
aggregates_of-none mysql g h = for_class-other g _ _ h
aggregates_of-none _ g h = for_class-other g _ _ h

-- For every dialect and column, the types of SUM and AVG are those that the dialect has for the
-- column's Go type: none exactly if that is no number; in SQLite SUM has the column's type, and AVG
-- float64, or Decimal for a Decimal; in MySQL both are Decimal, or float64 for a floating point
-- column; in PostgreSQL SUM is int64 for int16 and int32, the column's type for a floating point one
-- and Decimal for the other numbers, and AVG is float64 for a floating point column and Decimal for
-- the others.
pub aggregates_of-go_type :
    (d : SchemaDialect) (c : Column)
    → aggregates_of d (go_type d c) ≡ numeric_aggregate_types d c.db_type
unfolding go_type numeric_aggregate_types
aggregates_of-go_type d c =
    branches (is_uuid_type d c.db_type) (is_json_type c.db_type) (is_time_type d c.db_type) _ _
      (dialect_same d c)
  where
    branches :
        (u j t : Bool) (g : GoType) (a : Aggregates)
        → aggregates_of d g ≡ a
        → aggregates_of d
            (if u then uuid_type else if j then json_type else if t then time_type else g)
          ≡ (if u || j || t then none else a)
    branches true j t g a h = aggregates_of-none d uuid_type refl
    branches false true t g a h = aggregates_of-none d json_type refl
    branches false false true g a h = aggregates_of-none d time_type refl
    branches false false false g a h = h
