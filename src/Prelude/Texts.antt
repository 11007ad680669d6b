-- ===== src/Prelude/Texts.antt =====
-- Go strings as lists of code points, with the functions of `strings` and `fmt` that the source
-- calls: equality, `strings.Join`, `%d`.
use Prim.Native.Nat.{ℕ, zero, suc, ◌+◌, ◌-◌, ◌*◌, ◌/◌, ◌%◌, ◌<◌}
use Prim.Native.Char.{code}
use Prim.Native.String.{String}
use mathlib.Core.Path.{◌≡◌, refl, ap, ◌∙◌}
use mathlib.Core.Logic.{◌≢◌, ◌↔◌, inl, inr}
use mathlib.Core.Bool.{Bool, true, false, ◌&&◌, ◌||◌}
use mathlib.Core.List.{List, [], ◌∷◌, ◌++◌, append_assoc}
use native.Mathlib.Nat.{zero-add}
use native.Mathlib.Omega.{arith}
use tiqq.Prelude.Tests.{Bool-cases, ltb, leb, ◌==◌, if◌then◌else◌}

abbrev pub Text : Type 0
Text = List ℕ

-- The code points of a literal. It stays shut, so that a literal stands as it is written.
unfoldable pub codes : String → Text
codes String.[] = []
codes (String.◌∷◌ c s) = code c ∷ codes s

unfoldable pub equal : Text → Text → Bool
equal [] [] = true
equal (x ∷ xs) (y ∷ ys) = x == y && equal xs ys
equal _ _ = false

pub equal_iff : (a b : Text) → (equal a b ≡ true) ↔ (a ≡ b)
unfolding equal
equal_iff (x ∷ a) (y ∷ b) = ground (arith, equal_iff a b)
equal_iff _ _ = ground arith

pub equal_refl : (a : Text) → equal a a ≡ true
equal_refl a = (equal_iff a a).1 refl

pub equal-false : (a b : Text) → a ≢ b → equal a b ≡ false
equal-false a b h = elim (Bool-cases (equal a b)) [
  | inl same ↦ absurd (h ((equal_iff a b).0 same))
  | inr differ ↦ differ
]

-- Go's order of strings: `s <= t`.
unfoldable pub text_before : Text → Text → Bool
text_before [] t = true
text_before (c ∷ s) [] = false
text_before (c ∷ s) (d ∷ t) = let rest = text_before s t in ltb c d || (c == d && rest)

abbrev pub is_empty : Text → Bool
is_empty [] = true
is_empty (c ∷ s) = false

-- Every part behind the separator: what a loop with `if index > 0` writes from its second round on.
unfoldable pub separated : Text → List Text → Text
separated sep [] = []
separated sep (p ∷ ps) = sep ++ (p ++ separated sep ps)

-- `strings.Join`, and the loops that write the separator in front of every part but the first
unfoldable pub join : Text → List Text → Text
unfolding separated
join sep [] = []
join sep (p ∷ ps) = p ++ separated sep ps

-- `%d` of a number that is not negative; the fuel is one more than the number.
unfoldable pub digits : ℕ → ℕ → Text
digits zero n = []
digits (suc fuel) n =
    let front = digits fuel (n / 10) ++ (b'0' + n % 10) ∷ [] in
    if ltb n 10 then (b'0' + n) ∷ [] else front

unfoldable pub decimal : ℕ → Text
unfolding digits
decimal n = digits (suc n) n

abbrev pub is_digit : ℕ → Bool
is_digit c = leb b'0' c && leb c b'9'

-- The number that the leading digits of a text spell, behind the digits read so far.
abbrev pub read_number : ℕ → Text → ℕ
read_number n [] = n
read_number n (c ∷ s) =
    let more = read_number (n * 10 + (c - b'0')) s in if is_digit c then more else n

abbrev pub starts_digit : Text → Bool
starts_digit [] = false
starts_digit (c ∷ s) = is_digit c

read_number-cons :
    (n d : ℕ) (rest : Text)
    → d < 10
    → read_number n ((b'0' + d) ∷ rest) ≡ read_number (n * 10 + d) rest
read_number-cons n d rest h = ground (
  arith,
  ap (λ (k : ℕ). read_number k rest)
      (let e : n * 10 + (b'0' + d - b'0') ≡ n * 10 + d = omega arith in e),
)

read_number-digits :
    (fuel n : ℕ) (rest : Text)
    → n < fuel
    → read_number 0 (digits fuel n ++ rest) ≡ read_number n rest
unfolding digits
read_number-digits zero n rest h = elim h [ ]
read_number-digits (suc fuel) n rest h = elim (Bool-cases (ltb n 10)) [
  | inl small ↦
      rw small
        (read_number-cons 0 n rest (ground arith) ∙ ap (λ (k : ℕ). read_number k rest) (zero-add n))
  | inr large ↦ rw large (
      rw (append_assoc (digits fuel (n / 10)) ((b'0' + n % 10) ∷ []) rest) (
        read_number-digits fuel (n / 10) ((b'0' + n % 10) ∷ rest) (ground arith)
        ∙ read_number-cons (n / 10) (n % 10) rest (omega arith)
        ∙ ap (λ (k : ℕ). read_number k rest) (let e : n / 10 * 10 + n % 10 ≡ n = omega arith in e)))
]

read_number_stop : (n : ℕ) (rest : Text) → starts_digit rest ≡ false → read_number n rest ≡ n
read_number_stop n [] h = refl
read_number_stop n (c ∷ rest) h = rw h

-- Reading the decimal print of a number gives the number, whatever follows that is no digit.
pub read_number-decimal :
    (n : ℕ) (rest : Text) → starts_digit rest ≡ false → read_number 0 (decimal n ++ rest) ≡ n
unfolding decimal
read_number-decimal n rest h =
    read_number-digits (suc n) n rest (omega arith) ∙ read_number_stop n rest h
