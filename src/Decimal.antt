-- ===== src/Decimal.antt =====
-- decimal.go: exact decimals, which keep the text that the database gives.
use tiqq.Prelude.{
  [], ◌++◌, Text, codes, Result, ok, err, errorf, ok-injective, ◌≡◌, ◌↔◌, ◌⊎◌, inl, inr, refl, ap,
  ℕ,
}
use tiqq.Value.{Value}

-- `%T` of a value that is neither a text nor NULL.
abbrev scan_error : (ℕ → Text) → Value → Text
scan_error name Value.null = codes "tiqq: cannot scan NULL into Decimal"
scan_error name (Value.int64 z) = codes "tiqq: cannot scan int64 into Decimal"
scan_error name (Value.string s) = []
scan_error name (Value.byte_slice b) = []
scan_error name (Value.byte_array16 b) = codes "tiqq: cannot scan [16]uint8 into Decimal"
scan_error name (Value.uuid u) = codes "tiqq: cannot scan uuid.UUID into Decimal"
scan_error name (Value.json d) = codes "tiqq: cannot scan jsontext.Value into Decimal"
scan_error name (Value.decimal_value s) = codes "tiqq: cannot scan tiqq.Decimal into Decimal"
scan_error name (Value.other k v) = codes "tiqq: cannot scan " ++ (name k ++ codes " into Decimal")

-- `other_name` is what `%T` prints for the types that `Value` does not name.
module _ (other_name : ℕ → Text) where
  -- `Decimal.Scan`: what the receiver becomes.
  unfoldable pub scan_decimal : Value → Result Text
  scan_decimal (Value.string s) = ok s
  scan_decimal (Value.byte_slice b) = ok b
  scan_decimal v = err (errorf (scan_error other_name v))

-- `Decimal.Value`
unfoldable pub decimal_driver_value : Text → Value
decimal_driver_value s = Value.string s

-- `Decimal.String`
unfoldable pub decimal_string : Text → Text
decimal_string s = s

module _ (other_name : ℕ → Text) where
  scan_decimal_iff :
      (v : Value) (s : Text)
      → (scan_decimal other_name v ≡ ok s) ↔ ((v ≡ Value.string s) ⊎ (v ≡ Value.byte_slice s))
  unfolding scan_decimal
  scan_decimal_iff (Value.string t) s =
      ((λ h. inl (ap Value.string (ok-injective h))), elim [ inl e ↦ cc e | inr e ↦ cc e ])
  scan_decimal_iff (Value.byte_slice b) s =
      ((λ h. inr (ap Value.byte_slice (ok-injective h))), elim [ inl e ↦ cc e | inr e ↦ cc e ])
  scan_decimal_iff _ s = ((λ h. cc), elim [ inl e ↦ cc e | inr e ↦ cc e ])

  -- `Scan` gives a decimal exactly if the scanned value is a string or byte slice, which it keeps as it
  -- is; so a decimal that was given to a driver as `Value`, and comes back from it, is scanned as
  -- itself, and prints as itself.
  pub scan_decimal-driver_value :
      (s : Text)
      → (scan_decimal other_name (decimal_driver_value s) ≡ ok (decimal_string s))
        × ((v : Value)
            → (scan_decimal other_name v ≡ ok s)
              ↔ ((v ≡ Value.string s) ⊎ (v ≡ Value.byte_slice s)))
  unfolding scan_decimal decimal_driver_value decimal_string
  scan_decimal-driver_value s = (refl, λ v. scan_decimal_iff v s)
