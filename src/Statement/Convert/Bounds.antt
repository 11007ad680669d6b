-- ===== src/Statement/Convert/Bounds.antt =====
-- About the conversions of `Row.Get` in statement.go that package reflect makes of integers.
use tiqq.Prelude.{
  ℕ, suc, ◌+◌, ◌-◌, ◌*◌, ◌/◌, ltb, Bool-cases, inl, inr, ◌%◌, ◌<◌, [], digits, decimal, read_number,
  read_number-decimal, append-nil, zero, ok, ◌≡◌, ◌≢◌, ◌↔◌, refl, subst, sym, ap, ◌∙◌, arith,
}
use native.Mathlib.Nat.{mod-eq_of_lt, mod-lt, mod-mod, mod-add-div', mul-mod_left}
use tiqq.Value.{Value, ℤ, pos, negsuc}
use tiqq.Codegen.Types.{GoType}
use tiqq.Statement.Convert.{
  number, chars, Externals, plain, nullable, present, wrap_signed, wrap_unsigned, rune_text,
  assert_type, convert, decimal_text, plain_value, null_value, get_value,
}

-- The integers of a signed type with `h + h` values, and of an unsigned one with `m` values.
abbrev pub FitsSigned : ℕ → ℤ → Type 0
FitsSigned h (pos n) = n < h
FitsSigned h (negsuc n) = n < h

abbrev pub FitsUnsigned : ℕ → ℤ → Type 0
FitsUnsigned m (pos n) = n < m
FitsUnsigned m (negsuc n) = ⊥

-- The integers that a type holds. Types that are no integers hold none.
abbrev pub Holds : GoType → ℤ → Type 0
Holds GoType.int8 z = FitsSigned 128 z
Holds GoType.int16 z = FitsSigned 32768 z
Holds GoType.int32 z = FitsSigned 2147483648 z
Holds GoType.int64 z = FitsSigned 9223372036854775808 z
Holds GoType.uint8 z = FitsUnsigned 256 z
Holds GoType.uint16 z = FitsUnsigned 65536 z
Holds GoType.uint32 z = FitsUnsigned 4294967296 z
Holds GoType.uint64 z = FitsUnsigned 18446744073709551616 z
Holds _ z = ⊥

abbrev pub IsInteger : GoType → Type 0
IsInteger t = Holds t (pos 0)

-- How many integers a type holds.
abbrev pub count : GoType → ℕ
count GoType.int8 = 256
count GoType.int16 = 65536
count GoType.int32 = 4294967296
count GoType.int64 = 18446744073709551616
count GoType.uint8 = 256
count GoType.uint16 = 65536
count GoType.uint32 = 4294967296
count GoType.uint64 = 18446744073709551616
count _ = 0

-- The difference of two integers is a multiple of `m`.
abbrev pub IsCongruent : ℕ → ℤ → ℤ → Type 0
IsCongruent m (pos a) (pos b) = a % m ≡ b % m
IsCongruent m (pos a) (negsuc b) = (a + b + 1) % m ≡ 0
IsCongruent m (negsuc a) (pos b) = (b + a + 1) % m ≡ 0
IsCongruent m (negsuc a) (negsuc b) = a % m ≡ b % m

-- What an integer of a database becomes as a value of an integer type.
pub record Reads (x : Externals) (t : GoType) (z : ℤ) : Type 0 where
  pub result : ℤ
  pub read : get_value x (plain t) (Value.int64 z) ≡ ok (present (number result))
  pub read_nullable : get_value x (nullable t) (Value.int64 z) ≡ ok (present (number result))
  pub held : Holds t result
  pub wrapped : IsCongruent (count t) result z
  pub exact : (result ≡ z) ↔ Holds t z

pos-injective : {m n : ℕ} → pos m ≡ pos n → m ≡ n
pos-injective h = ground arith

wrap_signed-Fits : (h : ℕ) (z : ℤ) → 0 < h → FitsSigned h (wrap_signed h z)
unfolding wrap_signed
wrap_signed-Fits h z p = grind arith

wrap_signed_same : (h : ℕ) (z : ℤ) → FitsSigned h z → wrap_signed h z ≡ z
unfolding wrap_signed
wrap_signed_same h (pos n) q = let e : n % (h + h) ≡ n = mod-eq_of_lt (omega arith) in ground arith
wrap_signed_same h (negsuc n) q =
    let e : n % (h + h) ≡ n = mod-eq_of_lt (omega arith) in ground arith

wrap_signed_exact : (h : ℕ) (z : ℤ) → 0 < h → (wrap_signed h z ≡ z) ↔ FitsSigned h z
wrap_signed_exact h z p =
    ((λ e. subst (FitsSigned h) e (wrap_signed-Fits h z p)), wrap_signed_same h z)

wrap_unsigned-Fits : (m : ℕ) (z : ℤ) → 0 < m → FitsUnsigned m (wrap_unsigned m z)
unfolding wrap_unsigned
wrap_unsigned-Fits m z p = grind arith

wrap_unsigned_same : (m : ℕ) (z : ℤ) → FitsUnsigned m z → wrap_unsigned m z ≡ z
unfolding wrap_unsigned
wrap_unsigned_same m (pos n) q = ap pos (mod-eq_of_lt q)
wrap_unsigned_same m (negsuc n) q = absurd q

wrap_unsigned_exact : (m : ℕ) (z : ℤ) → 0 < m → (wrap_unsigned m z ≡ z) ↔ FitsUnsigned m z
wrap_unsigned_exact m z p =
    ((λ e. subst (FitsUnsigned m) e (wrap_unsigned-Fits m z p)), wrap_unsigned_same m z)

-- The remainder and its complement.
complement-mod : (m n : ℕ) → 0 < m → (n + (m - 1 - n % m) + 1) % m ≡ 0
complement-mod m n p =
    let e : n + (m - 1 - n % m) + 1 ≡ suc (n / m) * m =
      omega (arith, mod-add-div' n m, mod-lt n p) in
    ap (λ k. k % m) e ∙ mul-mod_left (suc (n / m)) m

complement-mod' : (m n : ℕ) → 0 < m → ((m - 1 - n % m) + n + 1) % m ≡ 0
complement-mod' m n p =
    let e : (m - 1 - n % m) + n + 1 ≡ n + (m - 1 - n % m) + 1 = omega arith in
    ap (λ k. k % m) e ∙ complement-mod m n p

wrap_unsigned-IsCongruent : (m : ℕ) (z : ℤ) → 0 < m → IsCongruent m (wrap_unsigned m z) z
unfolding wrap_unsigned
wrap_unsigned-IsCongruent m (pos n) p = mod-mod n m
wrap_unsigned-IsCongruent m (negsuc n) p = complement-mod' m n p

wrap_signed-IsCongruent : (h : ℕ) (z : ℤ) → 0 < h → IsCongruent (h + h) (wrap_signed h z) z
unfolding wrap_signed
wrap_signed-IsCongruent h (pos n) p = elim (Bool-cases (ltb (n % (h + h)) h)) [
  | inl low ↦ rw low (mod-mod n (h + h))
  | inr high ↦ rw high (complement-mod (h + h) n (omega arith))
]
wrap_signed-IsCongruent h (negsuc n) p = elim (Bool-cases (ltb (h + h - 1 - n % (h + h)) h)) [
  | inl low ↦ rw low (complement-mod' (h + h) n (omega arith))
  | inr high ↦
      let bound : n % (h + h) < h + h = mod-lt n (omega arith) in
      let e : h + h - 1 - (h + h - 1 - n % (h + h)) ≡ n % (h + h) = omega (arith, bound) in
      rw high (ap (λ k. k % (h + h)) e ∙ mod-mod n (h + h))
]

IsCongruent-refl : (m : ℕ) (z : ℤ) → IsCongruent m z z
IsCongruent-refl m (pos n) = refl
IsCongruent-refl m (negsuc n) = refl

module _ (x : Externals) where
  signed-Reads :
      (t : GoType) (h : ℕ) (z : ℤ)
      → 0 < h
      → get_value x (plain t) (Value.int64 z) ≡ ok (present (number (wrap_signed h z)))
      → get_value x (nullable t) (Value.int64 z) ≡ ok (present (number (wrap_signed h z)))
      → Holds t ≡ FitsSigned h
      → count t ≡ h + h
      → Reads x t z
  signed-Reads t h z p e f same k = record {
    result = wrap_signed h z;
    read = e;
    read_nullable = f;
    held = subst (λ P. P (wrap_signed h z)) (sym same) (wrap_signed-Fits h z p);
    wrapped =
        subst (λ n. IsCongruent n (wrap_signed h z) z) (sym k) (wrap_signed-IsCongruent h z p);
    exact = subst (λ P. (wrap_signed h z ≡ z) ↔ P z) (sym same) (wrap_signed_exact h z p);
  }

  unsigned-Reads :
      (t : GoType) (m : ℕ) (z : ℤ)
      → 0 < m
      → get_value x (plain t) (Value.int64 z) ≡ ok (present (number (wrap_unsigned m z)))
      → get_value x (nullable t) (Value.int64 z) ≡ ok (present (number (wrap_unsigned m z)))
      → Holds t ≡ FitsUnsigned m
      → count t ≡ m
      → Reads x t z
  unsigned-Reads t m z p e f same k = record {
    result = wrap_unsigned m z;
    read = e;
    read_nullable = f;
    held = subst (λ P. P (wrap_unsigned m z)) (sym same) (wrap_unsigned-Fits m z p);
    wrapped =
        subst (λ n. IsCongruent n (wrap_unsigned m z) z) (sym k) (wrap_unsigned-IsCongruent m z p);
    exact = subst (λ P. (wrap_unsigned m z ≡ z) ↔ P z) (sym same) (wrap_unsigned_exact m z p);
  }

  -- A 64-bit integer of the database that is read as an integer type, or as its nullable form, gives
  -- without an error an integer that the type holds, which differs from the scanned one by a multiple
  -- of the number of integers that the type holds, and is the scanned one exactly if the type holds
  -- that.
  pub get_value-Reads :
      (t : GoType) (z : ℤ) → IsInteger t → FitsSigned 9223372036854775808 z → Reads x t z
  unfolding get_value plain_value null_value assert_type convert
  get_value-Reads GoType.int8 z i f =
      signed-Reads GoType.int8 128 z (omega arith) refl refl refl refl
  get_value-Reads GoType.int16 z i f =
      signed-Reads GoType.int16 32768 z (omega arith) refl refl refl refl
  get_value-Reads GoType.int32 z i f =
      signed-Reads GoType.int32 2147483648 z (omega arith) refl refl refl refl
  get_value-Reads GoType.int64 z i f = record {
    result = z;
    read = refl;
    read_nullable = refl;
    held = f;
    wrapped = IsCongruent-refl 18446744073709551616 z;
    exact = ((λ e. f), λ h. refl);
  }
  get_value-Reads GoType.uint8 z i f =
      unsigned-Reads GoType.uint8 256 z (omega arith) refl refl refl refl
  get_value-Reads GoType.uint16 z i f =
      unsigned-Reads GoType.uint16 65536 z (omega arith) refl refl refl refl
  get_value-Reads GoType.uint32 z i f =
      unsigned-Reads GoType.uint32 4294967296 z (omega arith) refl refl refl refl
  get_value-Reads GoType.uint64 z i f =
      unsigned-Reads GoType.uint64 18446744073709551616 z (omega arith) refl refl refl refl
  get_value-Reads GoType.uuid_type z i f = elim i [ ]
  get_value-Reads GoType.json_type z i f = elim i [ ]
  get_value-Reads GoType.time_type z i f = elim i [ ]
  get_value-Reads GoType.decimal_type z i f = elim i [ ]
  get_value-Reads GoType.string_type z i f = elim i [ ]
  get_value-Reads GoType.bytes_type z i f = elim i [ ]
  get_value-Reads GoType.bool_type z i f = elim i [ ]
  get_value-Reads GoType.float32 z i f = elim i [ ]
  get_value-Reads GoType.float64 z i f = elim i [ ]

  read_number-rune_text : (n : ℕ) → 0 < n → read_number 0 (rune_text (pos n)) ≢ n
  unfolding rune_text
  read_number-rune_text n h = ground arith

  rune_text-ne-decimal : (n : ℕ) → rune_text (pos n) ≢ decimal n
  unfolding rune_text decimal digits
  rune_text-ne-decimal zero e = cc e
  rune_text-ne-decimal (suc n) e = read_number-rune_text (suc n) (omega arith) (
      ap (read_number 0) (e ∙ sym (append-nil (decimal (suc n))))
      ∙ read_number-decimal (suc n) [] refl)

  -- An integer that is read as a Decimal gives without an error the character with that number, which
  -- is not the decimal print of the integer where that is not negative.
  pub get_value-decimal :
      (z : ℤ)
      → (get_value x (plain GoType.decimal_type) (Value.int64 z)
          ≡ ok (present (chars (rune_text z))))
        × ((n : ℕ) → z ≡ pos n → rune_text z ≢ decimal n)
  unfolding get_value plain_value assert_type convert decimal_text
  get_value-decimal z = (refl, λ n e. rw e (rune_text-ne-decimal n))
