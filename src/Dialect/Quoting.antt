-- ===== src/Dialect/Quoting.antt =====
-- About quoteIdentifier of dialect.go: what an SQL lexer reads of a quoted identifier.
use tiqq.Prelude.{ℕ, Bool, true, false, [], ◌∷◌, Option, none, some, Text, ◌==◌, if◌then◌else◌}
use tiqq.Dialect.{Renderer, quote_char}

-- The identifier that was read, and the text behind its closing quote.
abbrev pub Token : Type 0
Token = Text × Text

abbrev with_char : ℕ → Option Token → Option Token
with_char c none = none
with_char c (some (s, rest)) = some (c ∷ s, rest)

-- The specification: behind the opening quote, a doubled quote stands for one, and a single quote ends
-- the identifier. The flag tells whether a quote was just met that may be either.
unfoldable read_rest : ℕ → Bool → Text → Option Token
read_rest q false [] = none
read_rest q true [] = some ([], [])
read_rest q false (c ∷ s) =
    let closing = read_rest q true s in
    let more = read_rest q false s in if c == q then closing else with_char c more
read_rest q true (c ∷ s) =
    let more = read_rest q false s in if c == q then with_char q more else some ([], c ∷ s)

unfoldable pub read_identifier : Renderer → Text → Option Token
unfolding read_rest
read_identifier r [] = none
read_identifier r (c ∷ s) = if c == quote_char r then read_rest (quote_char r) false s else none

abbrev pub starts_with : ℕ → Text → Bool
starts_with q [] = false
starts_with q (c ∷ s) = c == q
