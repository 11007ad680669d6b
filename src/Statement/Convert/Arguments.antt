-- ===== src/Statement/Convert/Arguments.antt =====
-- About `Statement.Args` of statement.go.
use tiqq.Prelude.{ℕ, List, [], ◌∷◌, map}
use tiqq.Value.{Value}
use tiqq.Statement.{Statement}
use tiqq.Statement.Convert.{Externals, argument, arguments}

-- A value that database drivers take: neither a uuid.UUID nor a jsontext.Value.
abbrev pub IsDriverValue : Value → Type 0
IsDriverValue (Value.uuid u) = ⊥
IsDriverValue (Value.json d) = ⊥
IsDriverValue _ = Unit {0}

module _ (x : Externals) where
  -- What an argument becomes: a UUID its text, JSON its bytes, and any other value itself.
  pub data Converted : Value → Value → Type 0 where
    as_text : (u : List ℕ) → Converted (Value.uuid u) (Value.string (x.show_uuid u))
    as_bytes : (d : List ℕ) → Converted (Value.json d) (Value.byte_slice d)
    as_is : (v : Value) → IsDriverValue v → Converted v v

  -- The two lists have one length, and corresponding elements are converted.
  abbrev pub AllConverted : List Value → List Value → Type 0
  AllConverted [] [] = Unit {0}
  AllConverted (v ∷ vs) (w ∷ ws) = Converted v w × IsDriverValue w × AllConverted vs ws
  AllConverted _ _ = ⊥

  argument-Converted : (v : Value) → Converted v (argument x v) × IsDriverValue (argument x v)
  unfolding argument
  argument-Converted (Value.uuid u) = (as_text u, tt)
  argument-Converted (Value.json d) = (as_bytes d, tt)
  argument-Converted Value.null = (as_is Value.null tt, tt)
  argument-Converted (Value.int64 z) = (as_is (Value.int64 z) tt, tt)
  argument-Converted (Value.string s) = (as_is (Value.string s) tt, tt)
  argument-Converted (Value.byte_slice b) = (as_is (Value.byte_slice b) tt, tt)
  argument-Converted (Value.byte_array16 b) = (as_is (Value.byte_array16 b) tt, tt)
  argument-Converted (Value.decimal_value s) = (as_is (Value.decimal_value s) tt, tt)
  argument-Converted (Value.other k v) = (as_is (Value.other k v) tt, tt)

  map-AllConverted : (vs : List Value) → AllConverted vs (map (argument x) vs)
  map-AllConverted [] = tt
  map-AllConverted (v ∷ vs) = let (c, d) = argument-Converted v in (c, d, map-AllConverted vs)

  -- `Args` gives one value for each argument of the statement, in their order: the text of a UUID, the
  -- bytes of a JSON value, and any other argument itself; no UUID or JSON value reaches a driver.
  pub arguments-AllConverted : (s : Statement) → AllConverted s.args (arguments x s)
  unfolding arguments
  arguments-AllConverted s = map-AllConverted s.args
