-- ===== src/Statement/Convert/Nulls.antt =====
-- About NULL and `sql.Null` in `Row.Get` of statement.go.
use tiqq.Prelude.{
  true, false, Option, none, some, ap, ok-injective, ↔_trans, if◌then◌else◌, Bool-cases, Result, ok,
  err, Error, Succeeds, ◌≡◌, ◌≢◌, ◌↔◌, ◌⊎◌, inl, inr, refl, sym, ◌∙◌, arith,
}
use tiqq.Value.{Value}
use tiqq.Codegen.Types.{GoType}
use tiqq.Statement.Convert.{
  Typed, Got, Externals, plain, nullable, present, absent, is_uuid, is_json, is_decimal,
  is_null_value, found, uuid_value, json_value, assert_type, assert_nullable, convert_integer,
  convert_text, convert, decimal_text, plain_value, null_value, as_present, get_value,
}

-- A value that a driver gives for a column that is not NULL, of a type that `Value` names.
abbrev pub IsScanned : Value → Type 0
IsScanned Value.null = ⊥
IsScanned (Value.other k v) = ⊥
IsScanned _ = Unit {0}

module _ (x : Externals) where
  as_present-absent : (m : Result Typed) → as_present m ≢ ok absent
  as_present-absent (ok t) h = cc h
  as_present-absent (err e) h = cc h

  plain_null : (t : GoType) → ¬ Succeeds (get_value x (plain t) Value.null)
  unfolding get_value plain_value uuid_value json_value assert_type convert decimal_text
  plain_null GoType.uuid_type (g, h) = cc h
  plain_null GoType.json_type (g, h) = cc h
  plain_null GoType.decimal_type (g, h) = cc h
  plain_null GoType.time_type (g, h) = cc h
  plain_null GoType.string_type (g, h) = cc h
  plain_null GoType.bytes_type (g, h) = cc h
  plain_null GoType.bool_type (g, h) = cc h
  plain_null GoType.int8 (g, h) = cc h
  plain_null GoType.int16 (g, h) = cc h
  plain_null GoType.int32 (g, h) = cc h
  plain_null GoType.int64 (g, h) = cc h
  plain_null GoType.uint8 (g, h) = cc h
  plain_null GoType.uint16 (g, h) = cc h
  plain_null GoType.uint32 (g, h) = cc h
  plain_null GoType.uint64 (g, h) = cc h
  plain_null GoType.float32 (g, h) = cc h
  plain_null GoType.float64 (g, h) = cc h

  null_iff : (v : Value) → (is_null_value v ≡ true) ↔ (v ≡ Value.null)
  null_iff Value.null = ((λ h. refl), λ h. refl)
  null_iff (Value.int64 z) = ((λ h. cc), λ h. cc)
  null_iff (Value.string s) = ((λ h. cc), λ h. cc)
  null_iff (Value.byte_slice b) = ((λ h. cc), λ h. cc)
  null_iff (Value.byte_array16 b) = ((λ h. cc), λ h. cc)
  null_iff (Value.uuid u) = ((λ h. cc), λ h. cc)
  null_iff (Value.json d) = ((λ h. cc), λ h. cc)
  null_iff (Value.decimal_value s) = ((λ h. cc), λ h. cc)
  null_iff (Value.other k v) = ((λ h. cc), λ h. cc)

  found-absent_iff :
      (o : Option Got) (m : Result Typed) → (found o (as_present m) ≡ ok absent) ↔ (o ≡ some absent)
  found-absent_iff none m = ((λ h. absurd (as_present-absent m h)), λ h. cc h)
  found-absent_iff (some g) m = ((λ h. ap some (ok-injective h)), λ h. cc h)

  -- A `sql.Null` of the type that a driver, or the code that fills a row, gives as not valid.
  abbrev pub IsInvalid : GoType → Value → Type 0
  IsInvalid t (Value.other k v) = x.assert_null k v t ≡ some absent
  IsInvalid t _ = ⊥

  IsInvalid-iff : (t : GoType) (v : Value) → (assert_nullable x t v ≡ some absent) ↔ IsInvalid t v
  IsInvalid-iff t (Value.other k v) = ((λ h. h), λ h. h)
  IsInvalid-iff t Value.null = ((λ h. cc), λ h. absurd h)
  IsInvalid-iff t (Value.int64 z) = ((λ h. cc), λ h. absurd h)
  IsInvalid-iff t (Value.string s) = ((λ h. cc), λ h. absurd h)
  IsInvalid-iff t (Value.byte_slice b) = ((λ h. cc), λ h. absurd h)
  IsInvalid-iff t (Value.byte_array16 b) = ((λ h. cc), λ h. absurd h)
  IsInvalid-iff t (Value.uuid u) = ((λ h. cc), λ h. absurd h)
  IsInvalid-iff t (Value.json d) = ((λ h. cc), λ h. absurd h)
  IsInvalid-iff t (Value.decimal_value s) = ((λ h. cc), λ h. absurd h)

  null_value-absent : (t : GoType) (v : Value) → (null_value x t v ≡ ok absent) ↔ IsInvalid t v
  unfolding null_value
  null_value-absent t v = ↔_trans (found-absent_iff (assert_nullable x t v) _) (IsInvalid-iff t v)

  nullable_absent_iff :
      (t : GoType) (v : Value)
      → (get_value x (nullable t) v ≡ ok absent) ↔ ((v ≡ Value.null) ⊎ IsInvalid t v)
  unfolding get_value
  nullable_absent_iff t v = elim (Bool-cases (is_null_value v)) [
    | inl yes_null ↦ rw yes_null ((λ h. inl ((null_iff v).0 yes_null)), λ h. refl)
    | inr value ↦ rw value (
      (λ h. inr ((null_value-absent t v).0 h)),
      λ e. elim e [
        | inl same ↦ cc (sym value ∙ (null_iff v).1 same)
        | inr invalid ↦ (null_value-absent t v).1 invalid
      ],
    )
  ]

  -- A NULL is never read as a value of a type that is no `sql.Null`. For `sql.Null` of a type the
  -- result is one that is not valid exactly if the scanned value is NULL, or is itself a `sql.Null` of
  -- that type that is not valid.
  pub get_value-null :
      (t : GoType)
      → (¬ Succeeds (get_value x (plain t) Value.null))
        × ((v : Value)
            → (get_value x (nullable t) v ≡ ok absent) ↔ ((v ≡ Value.null) ⊎ IsInvalid t v))
  get_value-null t = (plain_null t, nullable_absent_iff t)

  -- what an assertion gives, a conversion gives too
  assert-convert :
      (t : GoType) (v : Value)
      → IsScanned v
      → (assert_type x t v ≡ none) ⊎ (assert_type x t v ≡ convert x t v)
  unfolding assert_type convert convert_integer convert_text
  assert-convert t Value.null s = absurd s
  assert-convert t (Value.other k v) s = absurd s
  assert-convert t (Value.byte_array16 b) s = inl refl
  assert-convert t (Value.uuid u) s = inl refl
  assert-convert GoType.int64 (Value.int64 z) s = inr refl
  assert-convert GoType.string_type (Value.string u) s = inr refl
  assert-convert GoType.bytes_type (Value.byte_slice b) s = inr refl
  assert-convert GoType.json_type (Value.json d) s = inr refl
  assert-convert GoType.decimal_type (Value.decimal_value u) s = inr refl
  assert-convert _ _ s = inl refl

  decimal-convert :
      (v : Value) → (decimal_text v ≡ none) ⊎ (decimal_text v ≡ convert x GoType.decimal_type v)
  unfolding decimal_text convert convert_text
  decimal-convert (Value.string u) = inr refl
  decimal-convert (Value.byte_slice b) = inr refl
  decimal-convert _ = inl refl

  found_same :
      (a d c : Option Typed) (e e' : Error) (g : Typed)
      → (a ≡ none) ⊎ (a ≡ c)
      → (d ≡ none) ⊎ (d ≡ c)
      → (as_present (found a (found d (found c (err e)))) ≡ ok (present g))
        ↔ (as_present (found c (found d (err e'))) ≡ ok (present g))
  found_same a d c e e' g p q = ground arith

  decimal_branch :
      (t : GoType) (v : Value)
      → ((if is_decimal t then decimal_text v else none) ≡ none)
        ⊎ ((if is_decimal t then decimal_text v else none) ≡ convert x t v)
  decimal_branch GoType.decimal_type v = decimal-convert v
  decimal_branch _ v = inl refl

  assert_nullable-none : (t : GoType) (v : Value) → IsScanned v → assert_nullable x t v ≡ none
  assert_nullable-none t (Value.other k v) s = absurd s
  assert_nullable-none t _ s = refl

  not_null : (v : Value) → IsScanned v → is_null_value v ≡ false
  not_null Value.null s = absurd s
  not_null _ s = refl

  read_same :
      (t : GoType) (v : Value)
      → is_json t ≡ false
      → IsScanned v
      → (g : Typed)
      → (as_present (plain_value x t v) ≡ ok (present g)) ↔ (null_value x t v ≡ ok (present g))
  unfolding plain_value null_value
  read_same t v j s g = elim (Bool-cases (is_uuid t)) [
    | inl as_uuid ↦ rw (as_uuid, assert_nullable-none t v s) ((λ h. h), λ h. h)
    | inr other_type ↦
        rw (other_type, j, assert_nullable-none t v s)
          (found_same (assert_type x t v) (if is_decimal t then decimal_text v else none)
            (convert x t v) _ _ g (assert-convert t v s) (decimal_branch t v))
  ]

  -- For a type other than JSON, and a scanned value that is not NULL and whose type the model names,
  -- reading the type and reading its `sql.Null` form give the same value, and fail together.
  pub get_value-nullable :
      (t : GoType) (v : Value)
      → is_json t ≡ false
      → IsScanned v
      → (g : Typed)
      → (get_value x (plain t) v ≡ ok (present g)) ↔ (get_value x (nullable t) v ≡ ok (present g))
  unfolding get_value
  get_value-nullable t v j s g = rw (not_null v s) (read_same t v j s g)
