-- ===== src/Prelude/Maps.antt =====
-- Go's maps as association lists: `put` replaces the value of a key that there is. The order of the
-- list is that of the first writes, which no program may rely on.
use mathlib.Core.Path.{◌≡◌, refl}
use mathlib.Core.Logic.{◌↔◌, inl, inr}
use mathlib.Core.Bool.{Bool, true}
use mathlib.Core.List.{List, [], ◌∷◌}
use mathlib.Core.Option.{Option, none, some}
use native.Mathlib.Omega.{arith}
use tiqq.Prelude.Tests.{Bool-cases, if◌then◌else◌}

module _ {ℓ κ} {K : Type ℓ} {A : Type κ} where
  abbrev pub keys_of : List (K × A) → List K
  keys_of [] = []
  keys_of ((k, a) ∷ m) = k ∷ keys_of m

  module _ (same : K → K → Bool) where
    unfoldable pub lookup : K → List (K × A) → Option A
    lookup k [] = none
    lookup k ((j, a) ∷ m) = let rest = lookup k m in if same j k then some a else rest

    unfoldable pub put : K → A → List (K × A) → List (K × A)
    put k a [] = (k, a) ∷ []
    put k a ((j, b) ∷ m) = let rest = put k a m in if same j k then (j, a) ∷ m else (j, b) ∷ rest

-- The value of an option, or the zero value that a map gives for a missing key.
abbrev pub value_or {ℓ} : {A : Type ℓ} → A → Option A → A
value_or zero_value none = zero_value
value_or zero_value (some a) = a

module _ {ℓ κ} {K : Type ℓ} {A : Type κ} (same : K → K → Bool)
    (spec : (j k : K) → (same j k ≡ true) ↔ (j ≡ k)) where
  -- Reading a map behind a write.
  pub lookup-put :
      (n k : K) (a : A) (m : List (K × A))
      → lookup same n (put same k a m) ≡ (if same k n then some a else lookup same n m)
  unfolding lookup put
  lookup-put n k a [] = refl
  lookup-put n k a ((j, b) ∷ m) = elim (Bool-cases (same j k)) [
    | inl e ↦ rw (e, (spec j k).0 e) (ground arith)
    | inr d ↦ rw (d, lookup-put n k a m) (ground (arith, spec j k, spec j n, spec k n))
  ]
