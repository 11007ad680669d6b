-- ===== src/Command/Write.antt =====
-- writeGenerated of cmd/tiqq-gen/main.go: the output goes to a temporary file that is renamed at the
-- end. What the operating system answers is a parameter; what its calls do to files is written out.
pub mod Atomic
use tiqq.Prelude.{
  ℕ, Bool, true, false, List, [], ◌∷◌, ◌++◌, Option, none, some, Text, codes, equal, if◌then◌else◌,
  Result, ok, err, errorf,
}

abbrev pub Files : Type 0
Files = Text → Option (List ℕ)

pub record World : Type 0 where
  pub files : Files
  pub printed : List ℕ

abbrev pub update : Files → Text → Option (List ℕ) → Files
update f p c q = if equal p q then c else f q

-- What each call answers: the name of the temporary file, and an error's text where a call fails. A
-- failing write leaves `partial` behind, and the removal of the temporary file may fail unnoticed.
pub record Answers : Type 0 where
  pub temporary : Text
  pub create_error : Option Text
  pub chmod_error : Option Text
  pub write_error : Option Text
  pub partial : List ℕ
  pub sync_error : Option Text
  pub close_error : Option Text
  pub rename_error : Option Text
  pub removed : Bool

-- A step that may fail, and the world behind it.
abbrev pub Step : Type 0
Step = World → Result (Unit {0}) × World

infixl 5 ◌then_do◌
abbrev pub ◌then_do◌ : Step → Step → Step
◌then_do◌ first rest w = let (r, w') = first w in elim r [ ok done ↦ rest w' | err e ↦ (err e, w') ]

-- The answer of a call, with the text in front of its error.
abbrev pub answer : Text → Option Text → Result (Unit {0})
answer prefix none = ok tt
answer prefix (some e) = err (errorf (prefix ++ e))

-- A call that changes no file's text.
abbrev pub quiet : Text → Option Text → Step
quiet prefix e w = (answer prefix e, w)

abbrev pub put_file : Text → Option (List ℕ) → World → World
put_file p c w = record w { files = update w.files p c }

unfoldable pub write_file : Answers → Text → List ℕ → Step
write_file a p b w = elim (a.write_error) [
  | none ↦ (ok tt, put_file p (some b) w)
  | some e ↦ (err (errorf (codes "write generated source: " ++ e)), put_file p (some a.partial) w)
]

-- The rename replaces the target in one step, or does nothing.
unfoldable pub rename_file : Answers → Text → Text → Step
rename_file a p q w = elim (a.rename_error) [
  | none ↦ (ok tt, put_file p none (put_file q (w.files p) w))
  | some e ↦ (err (errorf (codes "replace generated source: " ++ e)), w)
]

-- The calls on the temporary file before the rename.
unfoldable pub fill_temporary : Answers → Text → List ℕ → Step
unfolding write_file
fill_temporary a temporary b =
    quiet (codes "set generated source permissions: ") a.chmod_error
    then_do write_file a temporary b
    then_do quiet (codes "sync generated source: ") a.sync_error
    then_do quiet (codes "close generated source: ") a.close_error

-- The deferred function: unless the file was renamed, it is removed.
unfoldable pub clean_up : Answers → Text → Result (Unit {0}) × World → Result (Unit {0}) × World
clean_up a temporary (ok done, w) = (ok done, w)
clean_up a temporary (err e, w) = (err e, if a.removed then put_file temporary none w else w)

unfoldable pub write_to_file : Answers → Text → List ℕ → Step
unfolding fill_temporary rename_file clean_up
write_to_file a path b w = elim (a.create_error) [
  | some e ↦ (err (errorf (codes "create temporary generated source: " ++ e)), w)
  | none ↦ clean_up a a.temporary (
      (fill_temporary a a.temporary b then_do rename_file a a.temporary path)
        (put_file a.temporary (some []) w))
]

unfoldable pub write_to_stdout : Answers → List ℕ → Step
write_to_stdout a b w = elim (a.write_error) [
  | none ↦ (ok tt, record w { printed = w.printed ++ b })
  | some e ↦ (
    err (errorf (codes "write generated source: " ++ e)),
    record w { printed = w.printed ++ a.partial },
  )
]

unfoldable pub write_generated : Answers → Text → List ℕ → Step
unfolding write_to_file write_to_stdout
write_generated a path b w =
    if equal path (codes "-") then write_to_stdout a b w else write_to_file a path b w
