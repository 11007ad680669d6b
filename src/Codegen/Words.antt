-- ===== src/Codegen/Words.antt =====
-- The functions of `strings`, `unicode` and `go/token` that the generator calls. A text is a list of
-- characters. What package unicode says of a character outside ASCII is a parameter where names are
-- made; database types are ASCII, and `to_lower`, `to_upper` and `trim_space` read no more.
use tiqq.Prelude.{
  ℕ, ◌+◌, ◌-◌, Bool, true, false, not, ◌&&◌, ◌||◌, [], ◌∷◌, map, Text, codes, KeySet, has, leb,
  ◌==◌, equal, is_digit, if◌then◌else◌,
}

abbrev pub is_upper : ℕ → Bool
is_upper c = leb b'A' c && leb c b'Z'

abbrev pub is_lower : ℕ → Bool
is_lower c = leb b'a' c && leb c b'z'

unfoldable pub lower_char : ℕ → ℕ
lower_char c = if is_upper c then c + 32 else c

unfoldable pub upper_char : ℕ → ℕ
upper_char c = if is_lower c then c - 32 else c

unfoldable pub to_lower : Text → Text
unfolding lower_char
to_lower s = map lower_char s

unfoldable pub to_upper : Text → Text
unfolding upper_char
to_upper s = map upper_char s

abbrev pub is_space : ℕ → Bool
is_space c = c == b' ' || (leb 9 c && leb c 13)

unfoldable pub trim_left : Text → Text
trim_left [] = []
trim_left (c ∷ s) = let rest = trim_left s in if is_space c then rest else c ∷ s

-- A character in front of trimmed text: a space stays unless nothing follows it.
abbrev keep : ℕ → Text → Text
keep c [] = if is_space c then [] else c ∷ []
keep c (d ∷ s) = c ∷ d ∷ s

unfoldable pub trim_right : Text → Text
trim_right [] = []
trim_right (c ∷ s) = keep c (trim_right s)

unfoldable pub trim_space : Text → Text
unfolding trim_left trim_right
trim_space s = trim_right (trim_left s)

-- `strings.EqualFold`
unfoldable pub equal_fold : Text → Text → Bool
unfolding to_lower
equal_fold s t = equal (to_lower s) (to_lower t)

unfoldable pub has_prefix : Text → Text → Bool
has_prefix s [] = true
has_prefix [] (d ∷ t) = false
has_prefix (c ∷ s) (d ∷ t) = c == d && has_prefix s t

-- `strings.Contains`
unfoldable pub contains : Text → Text → Bool
unfolding has_prefix
contains [] t = has_prefix [] t
contains (c ∷ s) t = has_prefix (c ∷ s) t || contains s t

-- The text in front of a suffix, if it has that suffix: `HasSuffix` and `TrimSuffix` in one.
unfoldable pub has_suffix : Text → Text → Bool
unfolding equal
has_suffix [] t = equal [] t
has_suffix (c ∷ s) t = equal (c ∷ s) t || has_suffix s t

unfoldable pub trim_suffix : Text → Text → Text
unfolding equal
trim_suffix [] t = []
trim_suffix (c ∷ s) t = if equal (c ∷ s) t then [] else c ∷ trim_suffix s t

-- The keywords of Go.
abbrev keywords : KeySet
keywords =
    codes "break"
    ∷ codes "case"
    ∷ codes "chan"
    ∷ codes "const"
    ∷ codes "continue"
    ∷ codes "default"
    ∷ codes "defer"
    ∷ codes "else"
    ∷ codes "fallthrough"
    ∷ codes "for"
    ∷ codes "func"
    ∷ codes "go"
    ∷ codes "goto"
    ∷ codes "if"
    ∷ codes "import"
    ∷ codes "interface"
    ∷ codes "map"
    ∷ codes "package"
    ∷ codes "range"
    ∷ codes "return"
    ∷ codes "select"
    ∷ codes "struct"
    ∷ codes "switch"
    ∷ codes "type"
    ∷ codes "var"
    ∷ []

unfoldable pub is_keyword : Text → Bool
unfolding equal codes
is_keyword s = has keywords s

-- Package unicode outside ASCII: `IsLetter`, `IsDigit`, and `ToUpper`, whose result may be ASCII.
pub record Unicode : Type 0 where
  pub letter : ℕ → Bool
  pub digit : ℕ → Bool
  pub upper : ℕ → ℕ

module _ (unicode : Unicode) where
  -- `unicode.ToUpper`
  unfoldable pub unicode_upper : ℕ → ℕ
  unfolding upper_char
  unicode_upper c = if leb 128 c then unicode.upper c else upper_char c

  abbrev pub is_letter : ℕ → Bool
  is_letter c = is_upper c || is_lower c || c == b'_' || (leb 128 c && unicode.letter c)

  abbrev pub is_word : ℕ → Bool
  is_word c = is_letter c || is_digit c || (leb 128 c && unicode.digit c)

  abbrev all_word : Text → Bool
  all_word [] = true
  all_word (c ∷ s) = is_word c && all_word s

  -- `token.IsIdentifier`
  unfoldable pub is_identifier : Text → Bool
  unfolding is_keyword
  is_identifier [] = false
  is_identifier (c ∷ s) = is_letter c && (all_word s && not (is_keyword (c ∷ s)))
