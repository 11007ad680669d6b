-- ===== src/Prelude/Keys.antt =====
-- `map[string]bool` as a set: only `true` is ever stored, so a map is the list of its keys.
use mathlib.Core.Path.{◌≡◌, refl, sym, subst}
use mathlib.Core.Logic.{◌↔◌, ◌⊎◌, inl, inr}
use mathlib.Core.Bool.{Bool, true, false, ◌||◌}
use mathlib.Core.List.{List, [], ◌∷◌, ◌++◌}
use native.Mathlib.Omega.{arith}
use tiqq.Prelude.Tests.{if◌then◌else◌}
use tiqq.Prelude.Texts.{Text, equal, equal_iff}

abbrev pub KeySet : Type 0
KeySet = List Text

abbrev pub has : KeySet → Text → Bool
has [] k = false
has (x ∷ xs) k = equal x k || has xs k

-- `set[k] = true`
abbrev pub add : Text → KeySet → KeySet
add k s = if has s k then s else k ∷ s

-- Membership as a statement.
abbrev pub Elem : Text → KeySet → Type 0
Elem k [] = ⊥
Elem k (x ∷ xs) = (x ≡ k) ⊎ Elem k xs

abbrev pub Distinct : KeySet → Type 0
Distinct [] = Unit
Distinct (x ∷ xs) = (¬ Elem x xs) × Distinct xs

pub has_iff : (s : KeySet) (k : Text) → (has s k ≡ true) ↔ Elem k s
has_iff [] k = ((λ h. cc), λ h. absurd h)
has_iff (x ∷ xs) k = ground (arith, equal_iff x k, has_iff xs k)

pub has-add : (s : KeySet) (j k : Text) → has (add j s) k ≡ (equal j k || has s k)
has-add s j k = ground (arith, equal_iff j k, has_iff s j)

pub Elem-append_left : (k : Text) (xs ys : KeySet) → Elem k xs → Elem k (xs ++ ys)
Elem-append_left k (x ∷ xs) ys (inl e) = inl e
Elem-append_left k (x ∷ xs) ys (inr m) = inr (Elem-append_left k xs ys m)
Elem-append_left k [] ys m = absurd m

pub Elem-append_right : (k : Text) (xs ys : KeySet) → Elem k ys → Elem k (xs ++ ys)
Elem-append_right k [] ys m = m
Elem-append_right k (x ∷ xs) ys m = inr (Elem-append_right k xs ys m)

-- Keys that are met one after another, each for the first time: what a loop with a `seen` map accepts.
abbrev pub Fresh : KeySet → List Text → Type 0
Fresh seen [] = Unit
Fresh seen (k ∷ ks) = (¬ Elem k seen) × Fresh (k ∷ seen) ks

Fresh-not_seen : (k : Text) (seen ks : List Text) → Elem k seen → Fresh seen ks → ¬ Elem k ks
Fresh-not_seen k seen [] m f g = g
Fresh-not_seen k seen (j ∷ ks) m (n, f) (inl e) = n (subst (λ x. Elem x seen) (sym e) m)
Fresh-not_seen k seen (j ∷ ks) m (n, f) (inr g) = Fresh-not_seen k (j ∷ seen) ks (inr m) f g

Fresh-Distinct : (seen ks : List Text) → Fresh seen ks → Distinct ks
Fresh-Distinct seen [] f = tt
Fresh-Distinct seen (k ∷ ks) (n, f) =
    (Fresh-not_seen k (k ∷ seen) ks (inl refl) f, Fresh-Distinct (k ∷ seen) ks f)

Distinct-Fresh :
    (seen ks : List Text) → Distinct ks → ((k : Text) → Elem k ks → ¬ Elem k seen) → Fresh seen ks
Distinct-Fresh seen [] d apart = tt
Distinct-Fresh seen (k ∷ ks) (n, d) apart =
    (apart k (inl refl), Distinct-Fresh (k ∷ seen) ks d later)
  where
    later : (j : Text) → Elem j ks → ¬ Elem j (k ∷ seen)
    later j m (inl e) = n (subst (λ x. Elem x ks) (sym e) m)
    later j m (inr g) = apart j (inr m) g

pub Fresh-iff : (ks : List Text) → Fresh [] ks ↔ Distinct ks
Fresh-iff ks = (Fresh-Distinct [] ks, λ d. Distinct-Fresh [] ks d (λ k m g. g))
