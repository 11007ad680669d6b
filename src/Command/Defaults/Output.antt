-- ===== src/Command/Defaults/Output.antt =====
-- About the output file of the command `tiqq-gen sqlite` of cmd/tiqq-gen/main.go, from its flags over
-- the introspection and the generator to the last rename.
use tiqq.Prelude.{
  ℕ, List, [], ◌∷◌, ◌++◌, none, some, Text, codes, Result, ok, err, Error, ok-injective, >>=-eq-ok,
  >>-eq-ok, fail_if-eq-ok, prefixed, prefixed-eq-ok, ◌≡◌, ◌≢◌, refl, sym, subst, ◌∙◌,
}
use tiqq.Schema.{Schema}
use tiqq.Introspect.Sqlite
use tiqq.Codegen.Generate.{generate}
use tiqq.Command.Write.{World, Answers, write_generated}
use tiqq.Command.Write.Atomic.{IsAtomic, write_generated-Replaces}
use tiqq.Command.Run.{
  Parse, Event, opened, written, closed, Session, Dependencies, sqlite_flags, generated,
  open_sqlite, run_sqlite,
}
use tiqq.Command.Run.Outcome.{Ends, unparsed, unopened, failed, finished, run-Ends}
use tiqq.Command.Defaults.{System, default_sqlite}

-- A run that succeeds has written `b` to the output, and one that fails has left the output as it was.
pub record Written {D : Type 0} (path : Text) (made : List ℕ → Type 0) (s : Session D)
    (o : Result (Unit {0}) × Session D) : Type 0 where
  pub whole : o.0 ≡ ok tt → (b : List ℕ) × made b × (o.1.world.files path ≡ some b)
  pub kept : (e : Error) → o.0 ≡ err e → o.1.world.files path ≡ s.world.files path

atomic_ok :
    (path : Text) (b : List ℕ) (w : World) (o : Result (Unit {0}) × World)
    → IsAtomic path b w o
    → o.0 ≡ ok tt
    → o.1.files path ≡ some b
atomic_ok path b w (ok done, w') h e = h
atomic_ok path b w (err f, w') h e = cc e

atomic_err :
    (path : Text) (b : List ℕ) (w : World) (o : Result (Unit {0}) × World)
    → IsAtomic path b w o
    → (e : Error) → o.0 ≡ err e
    → o.1.files path ≡ w.files path
atomic_err path b w (ok done, w') h e q = cc q
atomic_err path b w (err f, w') h e q = h

-- The text that a command makes: what its calls give for some database.
abbrev IsMade :
    {D : Type 0}
    → Dependencies D
    → (Text → Text)
    → ((Text → Text) → Result D)
    → Text
    → ((Text → Text) → Text)
    → List ℕ
    → Type 0
IsMade {D} deps flags opening connect name b =
    (d : D) × (opening flags ≡ ok d)
    × (generated connect deps d (name flags) (flags (codes "package")) ≡ ok b)

module _ {D : Type 0} (deps : Dependencies D) (answers : Answers)
    (same : (p : Text) (b : List ℕ) (w : World) → deps.write p b w ≡ write_generated answers p b w)
    (flags : Text → Text) (opening : (Text → Text) → Result D) (connect : Text)
    (name : (Text → Text) → Text) (s : Session D) where
  write-Written :
      (d : D) (b : List ℕ) (events : List (Event D))
      → flags (codes "output") ≢ codes "-"
      → s.world.files answers.temporary ≡ none
      → answers.temporary ≢ flags (codes "output")
      → opening flags ≡ ok d
      → generated connect deps d (name flags) (flags (codes "package")) ≡ ok b
      → Written (flags (codes "output")) (IsMade deps flags opening connect name) s (
        (deps.write (flags (codes "output")) b s.world).0,
        record { world = (deps.write (flags (codes "output")) b s.world).1; events = events },
      )
  write-Written d b events t f a r g =
      let path : Text = flags (codes "output") in
      let k : IsAtomic path b s.world (deps.write path b s.world) =
        subst (IsAtomic path b s.world) (sym (same path b s.world))
          ((write_generated-Replaces answers path b s.world t f a).atomic) in
      record {
        whole = λ h. (b, (d, r, g), atomic_ok path b s.world (deps.write path b s.world) k h);
        kept = atomic_err path b s.world (deps.write path b s.world) k;
      }

  Ends-Written :
      {parsed : Result (Text → Text)} {o : Result (Unit {0}) × Session D}
      → parsed ≡ ok flags
      → flags (codes "output") ≢ codes "-"
      → s.world.files answers.temporary ≡ none
      → answers.temporary ≢ flags (codes "output")
      → Ends deps parsed opening connect name s o
      → Written (flags (codes "output")) (IsMade deps flags opening connect name) s o
  Ends-Written p t f a (unparsed e q) = record { whole = λ h. cc h; kept = λ e h. refl }
  Ends-Written p t f a (unopened fl e q r) = record { whole = λ h. cc h; kept = λ e h. refl }
  Ends-Written p t f a (failed fl d e q r g) = record { whole = λ h. cc h; kept = λ e h. refl }
  Ends-Written p t f a (finished fl d b q r g) =
      let e : fl ≡ flags = ok-injective (sym q ∙ p) in
      subst
        (λ (k : Text → Text).
          Written (flags (codes "output")) (IsMade deps flags opening connect name) s (
            (deps.write (k (codes "output")) b s.world).0,
            record {
              world = (deps.write (k (codes "output")) b s.world).1;
              events = s.events ++ opened d ∷ written (k (codes "output")) ∷ closed d ∷ [];
            },
          ))
        (sym e)
        (write-Written d b (s.events ++ opened d ∷ written (flags (codes "output")) ∷ closed d ∷ [])
          t f a (subst (λ (k : Text → Text). opening k ≡ ok d) e r)
          (subst
            (λ (k : Text → Text). generated connect deps d (name k) (k (codes "package")) ≡ ok b) e
            g))

module _ (system : System) (connect : Text → Result Sqlite.Database)
    (answer : Sqlite.Database → Result (Unit {0})) (visited : Sqlite.Place → List ℕ → List ℕ) where
  -- The text that `tiqq-gen sqlite` is to write: what the generator makes of the schema of the
  -- database that is opened.
  abbrev pub IsText : (Text → Text) → List ℕ → Type 0
  IsText flags b =
      (d : Sqlite.Database) × (s : Schema) × (connect (flags (codes "database")) ≡ ok d)
      × (Sqlite.introspect visited d ≡ ok s)
      × (generate system.unicode system.quote system.format s (flags (codes "package")) ≡ ok b)

  open_sqlite-eq-ok :
      (flags : Text → Text) (d : Sqlite.Database)
      → open_sqlite (default_sqlite system connect answer visited) flags ≡ ok d
      → connect (flags (codes "database")) ≡ ok d
  unfolding open_sqlite default_sqlite
  open_sqlite-eq-ok flags d h =
      prefixed-eq-ok (codes "open SQLite database: ") (connect (flags (codes "database")))
        (fail_if-eq-ok _ _ _ h).1

  IsMade-IsText :
      (flags : Text → Text) (b : List ℕ)
      → IsMade
          (default_sqlite system connect answer visited)
          flags
          (open_sqlite (default_sqlite system connect answer visited))
          (codes "connect to SQLite: ")
          (λ k. [])
          b
      → IsText flags b
  unfolding generated default_sqlite
  IsMade-IsText flags b (d, r, g) =
      let (ping, rest) = >>-eq-ok (prefixed (codes "connect to SQLite: ") (answer d)) _ g in
      let (found, i, k) = >>=-eq-ok (Sqlite.introspect visited d) _ rest in
      (d, found, open_sqlite-eq-ok flags d r, i, k)

  -- With the default dependencies, if the output that the flags name is no `-`, and the temporary
  -- file's name is no file's and not the output's: if `tiqq-gen sqlite` ends without an error, the
  -- output holds what the generator makes of the schema that the introspection reads from the database
  -- that the flags name, and if it ends with an error, the output is what it was.
  pub run_sqlite-Written :
      (parse : Parse) (arguments : List Text) (flags : Text → Text) (s : Session Sqlite.Database)
      → parse sqlite_flags arguments ≡ ok flags
      → flags (codes "output") ≢ codes "-"
      → s.world.files system.answers.temporary ≡ none
      → system.answers.temporary ≢ flags (codes "output")
      → Written
          (flags (codes "output"))
          (IsText flags)
          s
          (run_sqlite parse arguments (default_sqlite system connect answer visited) s)
  unfolding default_sqlite
  run_sqlite-Written parse arguments flags s p t f a =
      let deps = default_sqlite system connect answer visited in
      let w =
        Ends-Written deps system.answers (λ q b v. refl) flags (open_sqlite deps)
          (codes "connect to SQLite: ") (λ k. []) s p t f a (run-Ends parse arguments deps s).0 in
      record {
        whole = λ h. let (b, m, e) = w.whole h in (b, IsMade-IsText flags b m, e);
        kept = w.kept;
      }
