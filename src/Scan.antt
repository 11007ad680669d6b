-- ===== src/Scan.antt =====
-- An SQL lexer's view of the built text, as far as parameters go: it skips quoted identifiers and
-- lists the placeholders outside them. This is the specification that the builders are held to.
use tiqq.Prelude.{
  ℕ, zero, suc, ◌+◌, ◌/◌, ◌%◌, ◌<◌, Bool, true, false, not, ◌&&◌, List, [], ◌∷◌, ◌++◌, Option, none,
  some, Text, codes, ◌==◌, if◌then◌else◌, ◌≡◌, refl, ap, ◌∙◌, arith, append_assoc, append-nil,
  starts_digit, read_number, digits, decimal, read_number-decimal, ltb, Bool-cases, inl, inr,
}
use native.Mathlib.Nat.{zero-add, add-zero, suc-add, add-suc}
use tiqq.Dialect.{
  Renderer, postgres_renderer, mysql_renderer, sqlite_renderer, quote_char, double,
  quote_identifier, placeholder,
}

-- At a character outside quotes: `$n` is the parameter `n`, and a `?` is the next parameter.
abbrev pub mark : Renderer → ℕ → Text → List (Option ℕ) → List (Option ℕ)
mark postgres_renderer c s found = if c == b'$' then some (read_number 0 s) ∷ found else found
mark mysql_renderer c s found = if c == b'?' then none ∷ found else found
mark sqlite_renderer c s found = if c == b'?' then none ∷ found else found

-- The placeholders of a text; the flag tells whether the text starts inside quotes.
unfoldable pub scan : Renderer → Bool → Text → List (Option ℕ)
scan r inside [] = []
scan r true (c ∷ s) = scan r (not (c == quote_char r)) s
scan r false (c ∷ s) = mark r c s (scan r (c == quote_char r) s)

abbrev pub params : Renderer → Text → List (Option ℕ)
params r s = scan r false s

abbrev pub token : Renderer → ℕ → Option ℕ
token postgres_renderer n = some n
token mysql_renderer n = none
token sqlite_renderer n = none

-- The placeholders of `count` arguments, the first of which has the number `first`.
abbrev pub numbered : Renderer → ℕ → ℕ → List (Option ℕ)
numbered r first zero = []
numbered r first (suc count) = token r first ∷ numbered r (suc first) count

pub numbered-add :
    (r : Renderer) (n j k : ℕ) → numbered r n (j + k) ≡ numbered r n j ++ numbered r (n + j) k
numbered-add r n zero k = rw (zero-add, add-zero)
numbered-add r n (suc j) k =
    rw (suc-add, add-suc) (ap (λ x. token r n ∷ x) (numbered-add r (suc n) j k ∙ rw suc-add))

-- A character that neither quotes nor marks a parameter.
abbrev pub is_plain_char : ℕ → Bool
is_plain_char c = not (c == b'"') && (not (c == b'`') && (not (c == b'$') && not (c == b'?')))

abbrev pub all_plain : Text → Bool
all_plain [] = true
all_plain (c ∷ s) = is_plain_char c && all_plain s

-- Plain text that starts with no digit, such as a keyword.
abbrev pub is_plain : Text → Bool
is_plain s = not (starts_digit s) && all_plain s

-- A piece of SQL that holds the given placeholders, whatever follows it that starts with no digit.
pub record Reads (r : Renderer) (s : Text) (found : List (Option ℕ)) : Type 0 where
  pub reads :
      (rest : Text)
      → starts_digit rest ≡ false
      → scan r false (s ++ rest) ≡ found ++ scan r false rest
  pub starts : (rest : Text) → starts_digit rest ≡ false → starts_digit (s ++ rest) ≡ false

scan-all_plain :
    (r : Renderer) (s rest : Text)
    → all_plain s ≡ true
    → scan r false (s ++ rest) ≡ scan r false rest
unfolding scan
scan-all_plain r [] rest h = refl
scan-all_plain postgres_renderer (c ∷ s) rest h =
    ground (arith, scan-all_plain postgres_renderer s rest)
scan-all_plain mysql_renderer (c ∷ s) rest h = ground (arith, scan-all_plain mysql_renderer s rest)
scan-all_plain sqlite_renderer (c ∷ s) rest h =
    ground (arith, scan-all_plain sqlite_renderer s rest)

starts_digit-append :
    (s rest : Text)
    → starts_digit s ≡ false
    → starts_digit rest ≡ false
    → starts_digit (s ++ rest) ≡ false
starts_digit-append [] rest h g = g
starts_digit-append (c ∷ s) rest h g = h

pub Reads-plain : (r : Renderer) (s : Text) → is_plain s ≡ true → Reads r s []
Reads-plain r s h = record {
  reads = λ rest g. scan-all_plain r s rest (ground arith);
  starts = λ rest g. starts_digit-append s rest (ground arith) g;
}

module _ {r : Renderer} where
  pub Reads-nil : Reads r [] []
  Reads-nil = record { reads = λ rest g. refl; starts = λ rest g. g }

  pub Reads-append :
      {s t : Text} {ps qs : List (Option ℕ)}
      → Reads r s ps
      → Reads r t qs
      → Reads r (s ++ t) (ps ++ qs)
  Reads-append {s} {t} {ps} {qs} a b = record {
    reads = λ rest g.
        rw (append_assoc s t rest, append_assoc ps qs (scan r false rest))
          (a.reads (t ++ rest) (b.starts rest g) ∙ ap (λ x. ps ++ x) (b.reads rest g));
    starts = λ rest g. rw (append_assoc s t rest) (a.starts (t ++ rest) (b.starts rest g));
  }

scan_close : (r : Renderer) (rest : Text) → scan r true (quote_char r ∷ rest) ≡ scan r false rest
unfolding scan
scan_close postgres_renderer rest = refl
scan_close mysql_renderer rest = refl
scan_close sqlite_renderer rest = refl

scan_open : (r : Renderer) (rest : Text) → scan r false (quote_char r ∷ rest) ≡ scan r true rest
unfolding scan
scan_open postgres_renderer rest = refl
scan_open mysql_renderer rest = refl
scan_open sqlite_renderer rest = refl

scan_inside :
    (r : Renderer) (c : ℕ) (rest : Text)
    → (c == quote_char r) ≡ false
    → scan r true (c ∷ rest) ≡ scan r true rest
unfolding scan
scan_inside r c rest h = rw h

scan-double :
    (r : Renderer) (s rest : Text)
    → scan r true (double (quote_char r) s ++ quote_char r ∷ rest) ≡ scan r false rest
unfolding double
scan-double r [] rest = scan_close r rest
scan-double r (c ∷ s) rest = elim (Bool-cases (c == quote_char r)) [
  | inl quoted ↦ rw quoted (scan_close r _ ∙ scan_open r _ ∙ scan-double r s rest)
  | inr other ↦ rw other (scan_inside r c _ other ∙ scan-double r s rest)
]

starts_digit-quote_char : (r : Renderer) (rest : Text) → starts_digit (quote_char r ∷ rest) ≡ false
starts_digit-quote_char postgres_renderer rest = refl
starts_digit-quote_char mysql_renderer rest = refl
starts_digit-quote_char sqlite_renderer rest = refl

-- Whatever characters an identifier has, it holds no placeholder once it is quoted.
pub Reads-quote_identifier : (r : Renderer) (s : Text) → Reads r (quote_identifier r s) []
unfolding quote_identifier
Reads-quote_identifier r s = record {
  reads = λ rest g.
      scan_open r ((double (quote_char r) s ++ quote_char r ∷ []) ++ rest)
      ∙ rw (append_assoc (double (quote_char r) s) (quote_char r ∷ []) rest) (scan-double r s rest);
  starts =
      λ rest g. starts_digit-quote_char r ((double (quote_char r) s ++ quote_char r ∷ []) ++ rest);
}

scan_digit :
    (d : ℕ) (rest : Text)
    → d < 10
    → scan postgres_renderer false ((b'0' + d) ∷ rest) ≡ scan postgres_renderer false rest
unfolding scan
scan_digit d rest h = ground arith

scan-digits :
    (fuel n : ℕ) (rest : Text)
    → scan postgres_renderer false (digits fuel n ++ rest) ≡ scan postgres_renderer false rest
unfolding digits
scan-digits zero n rest = refl
scan-digits (suc fuel) n rest = elim (Bool-cases (ltb n 10)) [
  | inl small ↦ rw small (scan_digit n rest (ground arith))
  | inr large ↦ rw large (
      rw (append_assoc (digits fuel (n / 10)) ((b'0' + n % 10) ∷ []) rest) (
        scan-digits fuel (n / 10) ((b'0' + n % 10) ∷ rest)
        ∙ scan_digit (n % 10) rest (omega arith)))
]

pub Reads-placeholder : (r : Renderer) (n : ℕ) → Reads r (placeholder r n) (token r n ∷ [])
unfolding placeholder decimal codes scan
Reads-placeholder postgres_renderer n = record {
  reads = λ rest g.
      ap (λ k. some k ∷ scan postgres_renderer false (digits (suc n) n ++ rest))
        (read_number-decimal n rest g)
      ∙ ap (λ x. some n ∷ x) (scan-digits (suc n) n rest);
  starts = λ rest g. refl;
}
Reads-placeholder mysql_renderer n = record { reads = λ rest g. refl; starts = λ rest g. refl }
Reads-placeholder sqlite_renderer n = record { reads = λ rest g. refl; starts = λ rest g. refl }

-- A text read up to its end.
pub params-Reads :
    {r : Renderer} {s : Text} {found : List (Option ℕ)} → Reads r s found → params r s ≡ found
params-Reads {r} {s} {found} h =
    rw (← append-nil s) (h.reads [] refl ∙ unfold scan in append-nil found)
