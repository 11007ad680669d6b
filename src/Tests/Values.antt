-- ===== src/Tests/Values.antt =====
-- The conversions of scanned values on concrete data.
use tiqq.Prelude.{
  ◌==◌, if◌then◌else◌, some, ◌⊎◌, ℕ, true, [], ◌∷◌, none, codes, ok, Succeeds, ◌≡◌, ◌≢◌, ◌↔◌, refl,
  decimal, arith,
}
use tiqq.Value.{Value, pos, negsuc}
use tiqq.Codegen.Types.{GoType}
use tiqq.Statement.Convert.{
  number, chars, Externals, plain, nullable, present, absent, rune_text, assert_type, decimal_text,
  convert, get_value,
}
use tiqq.Statement.Convert.Bounds.{Reads, get_value-Reads, get_value-decimal}
use tiqq.Statement.Convert.Nulls.{IsInvalid, get_value-null, get_value-nullable}

-- Libraries of which a UUID is its own text, every JSON value is valid, and a value of the type with
-- number 0 is a `sql.Null` that is not valid.
abbrev plain_libraries : Externals
plain_libraries = record {
  parse_uuid = λ s. ok s;
  show_uuid = λ u. u;
  valid_json = λ d. true;
  round = λ t z. number z;
  other_name = λ k. codes "float64";
  assert_other = λ k v t. none;
  assert_null = λ k v t. if k == 0 then some absent else none;
  convert_other = λ k v t. none;
}

wrapped :
    get_value plain_libraries (plain GoType.int8) (Value.int64 (pos 200))
    ≡ ok (present (number (negsuc 55)))
unfolding get_value assert_type convert
wrapped = refl

characters :
    get_value plain_libraries (plain GoType.decimal_type) (Value.int64 (pos 65))
    ≡ ok (present (chars (b'A' ∷ [])))
unfolding get_value assert_type decimal_text convert
characters = refl

get_value-Reads_example : Reads plain_libraries GoType.int8 (pos 200)
get_value-Reads_example =
    get_value-Reads plain_libraries GoType.int8 (pos 200) (omega arith) (omega arith)

get_value-decimal_example :
    (get_value plain_libraries (plain GoType.decimal_type) (Value.int64 (pos 65))
      ≡ ok (present (chars (rune_text (pos 65)))))
    × ((n : ℕ) → pos 65 ≡ pos n → rune_text (pos 65) ≢ decimal n)
get_value-decimal_example = get_value-decimal plain_libraries (pos 65)

get_value-null_example :
    (¬ Succeeds (get_value plain_libraries (plain GoType.int64) Value.null))
    × ((v : Value)
        → (get_value plain_libraries (nullable GoType.int64) v ≡ ok absent)
          ↔ ((v ≡ Value.null) ⊎ IsInvalid plain_libraries GoType.int64 v))
get_value-null_example = get_value-null plain_libraries GoType.int64

get_value-nullable_example :
    (get_value plain_libraries (plain GoType.decimal_type) (Value.string (codes "1.50"))
      ≡ ok (present (chars (codes "1.50"))))
    ↔ (get_value plain_libraries (nullable GoType.decimal_type) (Value.string (codes "1.50"))
        ≡ ok (present (chars (codes "1.50"))))
get_value-nullable_example =
    get_value-nullable plain_libraries GoType.decimal_type (Value.string (codes "1.50")) refl tt
      (chars (codes "1.50"))
