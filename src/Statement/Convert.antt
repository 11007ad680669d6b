-- ===== src/Statement/Convert.antt =====
-- The conversions of statement.go: `Statement.Args`, and the second half of `Row.Get`, from a scanned
-- value to the type that is wanted. What packages outside the repository do is a parameter.
pub mod Bounds
pub mod Nulls
pub mod Arguments
use tiqq.Prelude.{
  ℕ, zero, suc, ◌+◌, ◌-◌, ◌/◌, ◌%◌, ◌^◌, Bool, true, false, not, ◌&&◌, List, [], ◌∷◌, ◌++◌, map,
  Option, none, some, Text, codes, ltb, leb, length, ◌==◌, if◌then◌else◌, Result, ok, err, Error,
  errorf, panic, ◌>>=◌, prefixed,
}
use tiqq.Value.{Value, ℤ, pos, negsuc}
use tiqq.Column.{ColumnRef, id}
use tiqq.Codegen.Types.{GoType, type_text}
use tiqq.Statement.{Statement, Row, raw_value}

-- A value of one of the Go types that results have. Strings and `tiqq.Decimal` are texts, integers of
-- every width are numbers, and `opaque` is a value that is not looked into, such as a float or a time.
pub data Typed : Type 0 where
  number : ℤ → Typed
  chars : Text → Typed
  octets : List ℕ → Typed
  identifier : List ℕ → Typed
  document : List ℕ → Typed
  opaque : ℕ → ℕ → Typed

-- What `Get` is asked for: a type, or `sql.Null` of a type.
pub data Wanted : Type 0 where
  plain : GoType → Wanted
  nullable : GoType → Wanted

-- What it returns: a value, which under `sql.Null` is a valid one, or a `sql.Null` that is
-- not valid, such as the zero one.
pub data Got : Type 0 where
  present : Typed → Got
  absent : Got

-- The functions of other packages: `uuid.Parse`, `UUID.String`, `jsontext.Value.IsValid`, the
-- rounding of an integer to a float, and what `%T`, a type assertion and package reflect make of a
-- value whose type `Value` does not name. `assert_null` is the assertion of `sql.Null` of a type, or
-- the conversion to it: the value may be such a struct already, valid or not.
pub record Externals : Type 0 where
  pub parse_uuid : Text → Result (List ℕ)
  pub show_uuid : List ℕ → Text
  pub valid_json : List ℕ → Bool
  pub round : GoType → ℤ → Typed
  pub other_name : ℕ → Text
  pub assert_other : ℕ → ℕ → GoType → Option Typed
  pub assert_null : ℕ → ℕ → GoType → Option Got
  pub convert_other : ℕ → ℕ → GoType → Option Typed

abbrev pub is_uuid : GoType → Bool
is_uuid GoType.uuid_type = true
is_uuid _ = false

abbrev pub is_json : GoType → Bool
is_json GoType.json_type = true
is_json _ = false

abbrev pub is_decimal : GoType → Bool
is_decimal GoType.decimal_type = true
is_decimal _ = false

abbrev pub is_null_value : Value → Bool
is_null_value Value.null = true
is_null_value _ = false

-- The residue of an integer.
abbrev pub residue : ℤ → ℕ → ℕ
residue (pos n) m = n % m
residue (negsuc n) m = m - 1 - n % m

-- Go's conversion to an unsigned integer type with `m` values.
unfoldable pub wrap_unsigned : ℕ → ℤ → ℤ
wrap_unsigned m z = pos (residue z m)

-- Go's conversion to a signed integer type with `h + h` values.
unfoldable pub wrap_signed : ℕ → ℤ → ℤ
wrap_signed h z = let r = residue z (h + h) in if ltb r h then pos r else negsuc (h + h - 1 - r)

abbrev pub replacement : Text
replacement = 239 ∷ 191 ∷ 189 ∷ []

-- Go's conversion of an integer to a string: the character with that number, in UTF-8.
unfoldable pub rune_text : ℤ → Text
rune_text (negsuc n) = replacement
rune_text (pos n) =
    if ltb n 128
    then n ∷ []
    else if ltb n 2048
    then (192 + n / 64) ∷ (128 + n % 64) ∷ []
    else if leb 55296 n && ltb n 57344
    then replacement
    else if ltb n 65536
    then (224 + n / 4096) ∷ (128 + n / 64 % 64) ∷ (128 + n % 64) ∷ []
    else if ltb n 1114112
    then (240 + n / 262144) ∷ (128 + n / 4096 % 64) ∷ (128 + n / 64 % 64) ∷ (128 + n % 64) ∷ []
    else replacement

-- A text or byte slice as another type of texts or byte slices.
unfoldable pub convert_text : GoType → List ℕ → Option Typed
convert_text GoType.string_type s = some (chars s)
convert_text GoType.decimal_type s = some (chars s)
convert_text GoType.bytes_type s = some (octets s)
convert_text GoType.json_type s = some (document s)
convert_text _ s = none

-- A string or byte slice as a `tiqq.Decimal`.
unfoldable pub decimal_text : Value → Option Typed
decimal_text (Value.string s) = some (chars s)
decimal_text (Value.byte_slice b) = some (chars b)
decimal_text _ = none

-- The first that there is.
abbrev pub found {ℓ} : {A : Type ℓ} → Option A → Result A → Result A
found (some t) rest = ok t
found none rest = rest

abbrev pub as_typed : (List ℕ → Typed) → Result (List ℕ) → Result Typed
as_typed f (ok b) = ok (f b)
as_typed f (err e) = err e

abbrev pub as_present : Result Typed → Result Got
as_present (ok t) = ok (present t)
as_present (err e) = err e

abbrev panicking : Result Got → Result Got
panicking (ok g) = ok g
panicking (err (errorf e)) = err (panic e)
panicking (err (panic e)) = err (panic e)

module _ (x : Externals) where
  -- `%T`
  abbrev type_name : Value → Text
  type_name Value.null = codes "<nil>"
  type_name (Value.int64 z) = codes "int64"
  type_name (Value.string s) = codes "string"
  type_name (Value.byte_slice b) = codes "[]uint8"
  type_name (Value.byte_array16 b) = codes "[16]uint8"
  type_name (Value.uuid u) = codes "uuid.UUID"
  type_name (Value.json d) = codes "jsontext.Value"
  type_name (Value.decimal_value s) = codes "tiqq.Decimal"
  type_name (Value.other t v) = x.other_name t

  abbrev wanted_name : Wanted → Text
  wanted_name (plain GoType.bytes_type) = codes "[]uint8"
  wanted_name (plain t) = type_text t
  wanted_name (nullable GoType.bytes_type) = codes "sql.Null[[]uint8]"
  wanted_name (nullable GoType.decimal_type) = codes "sql.Null[github.com/eji/tiqq.Decimal]"
  wanted_name (nullable GoType.json_type) = codes "sql.Null[encoding/json/jsontext.Value]"
  wanted_name (nullable t) = codes "sql.Null[" ++ (type_text t ++ codes "]")

  abbrev cannot_use : Value → Wanted → Text
  cannot_use v w = codes "cannot use " ++ (type_name v ++ (codes " as " ++ wanted_name w))

  -- One argument, as the driver is given it.
  unfoldable pub argument : Value → Value
  argument (Value.uuid u) = Value.string (x.show_uuid u)
  argument (Value.json d) = Value.byte_slice d
  argument v = v

  -- `Statement.Args`
  unfoldable pub arguments : Statement → List Value
  unfolding argument
  arguments s = map argument s.args

  unfoldable pub uuid_value : Value → Result (List ℕ)
  uuid_value (Value.uuid u) = ok u
  uuid_value (Value.byte_array16 b) = ok b
  uuid_value (Value.string s) = prefixed (codes "invalid UUID: ") (x.parse_uuid s)
  uuid_value (Value.byte_slice b) =
      if length b == 16 then ok b else prefixed (codes "invalid UUID: ") (x.parse_uuid b)
  uuid_value v = err (errorf (codes "cannot use " ++ (type_name v ++ codes " as uuid.UUID")))

  unfoldable pub checked_json : List ℕ → Result (List ℕ)
  checked_json d = if not (x.valid_json d) then err (errorf (codes "invalid JSON")) else ok d

  unfoldable pub json_value : Value → Result (List ℕ)
  unfolding checked_json
  json_value (Value.json d) = checked_json d
  json_value (Value.byte_slice b) = checked_json b
  json_value (Value.string s) = checked_json s
  json_value v = err (errorf (codes "cannot use " ++ (type_name v ++ codes " as jsontext.Value")))

  -- `raw.(V)`; there is none for uuid.UUID, which is read before.
  unfoldable pub assert_type : GoType → Value → Option Typed
  assert_type t Value.null = none
  assert_type t (Value.byte_array16 b) = none
  assert_type t (Value.uuid u) = none
  assert_type GoType.int64 (Value.int64 z) = some (number z)
  assert_type GoType.string_type (Value.string s) = some (chars s)
  assert_type GoType.bytes_type (Value.byte_slice b) = some (octets b)
  assert_type GoType.json_type (Value.json d) = some (document d)
  assert_type GoType.decimal_type (Value.decimal_value s) = some (chars s)
  assert_type t (Value.other k v) = x.assert_other k v t
  assert_type _ _ = none

  -- An integer as another type: Go wraps integers round, and makes characters of them.
  unfoldable pub convert_integer : GoType → ℤ → Option Typed
  unfolding wrap_signed wrap_unsigned rune_text
  convert_integer GoType.int8 z = some (number (wrap_signed 128 z))
  convert_integer GoType.int16 z = some (number (wrap_signed 32768 z))
  convert_integer GoType.int32 z = some (number (wrap_signed 2147483648 z))
  convert_integer GoType.int64 z = some (number z)
  convert_integer GoType.uint8 z = some (number (wrap_unsigned 256 z))
  convert_integer GoType.uint16 z = some (number (wrap_unsigned 65536 z))
  convert_integer GoType.uint32 z = some (number (wrap_unsigned 4294967296 z))
  convert_integer GoType.uint64 z = some (number (wrap_unsigned 18446744073709551616 z))
  convert_integer GoType.float32 z = some (x.round GoType.float32 z)
  convert_integer GoType.float64 z = some (x.round GoType.float64 z)
  convert_integer GoType.string_type z = some (chars (rune_text z))
  convert_integer GoType.decimal_type z = some (chars (rune_text z))
  convert_integer _ z = none

  -- `ConvertibleTo` and `Convert` of package reflect; uuid.UUID is never asked for.
  unfoldable pub convert : GoType → Value → Option Typed
  unfolding convert_integer convert_text
  convert t Value.null = none
  convert t (Value.int64 z) = convert_integer t z
  convert t (Value.string s) = convert_text t s
  convert t (Value.byte_slice b) = convert_text t b
  convert t (Value.byte_array16 b) = none
  convert t (Value.uuid u) = none
  convert t (Value.json d) = convert_text t d
  convert t (Value.decimal_value s) = convert_text t s
  convert t (Value.other k v) = x.convert_other k v t

  -- `Get` for a type that is no `sql.Null`.
  unfoldable pub plain_value : GoType → Value → Result Typed
  plain_value t v =
      if is_uuid t
      then as_typed identifier (uuid_value v)
      else found (assert_type t v) (
          if is_json t
          then as_typed document (json_value v)
          else found (if is_decimal t then decimal_text v else none)
              (found (convert t v) (err (errorf (cannot_use v (plain t))))))

  abbrev pub assert_nullable : GoType → Value → Option Got
  assert_nullable t (Value.other k v) = x.assert_null k v t
  assert_nullable t _ = none

  -- `Get` for `sql.Null` of a type, at a value that is not nil. A struct of that type is returned as
  -- it is; what is made here is valid.
  unfoldable pub null_value : GoType → Value → Result Got
  null_value t v = found (assert_nullable t v) (
      as_present (
        if is_uuid t
        then as_typed identifier (uuid_value v)
        else if is_json t
        then as_typed document (json_value v)
        else found (convert t v) (
            found (if is_decimal t then decimal_text v else none)
              (err (errorf (cannot_use v (nullable t)))))))

  unfoldable pub get_value : Wanted → Value → Result Got
  unfolding plain_value null_value
  get_value (plain t) v = as_present (plain_value t v)
  get_value (nullable t) v = if is_null_value v then ok absent else null_value t v

  -- `Row.Get`
  unfoldable pub get : Wanted → Row → ColumnRef → Result Got
  get w r c = do
    v ← raw_value r c
    prefixed (codes "tiqq: column " ++ (id c ++ codes ": ")) (get_value w v)

  unfoldable pub must_get : Wanted → Row → ColumnRef → Result Got
  must_get w r c = panicking (get w r c)
