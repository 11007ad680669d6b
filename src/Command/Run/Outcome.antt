-- ===== src/Command/Run/Outcome.antt =====
-- About the commands of cmd/tiqq-gen/main.go that read a database.
use tiqq.Prelude.{
  ℕ, List, [], ◌∷◌, ◌++◌, append_assoc, Text, codes, Result, ok, err, Error, ◌≡◌, ◌⊎◌, inl, inr,
  refl,
}
use tiqq.Command.Run.{
  Parse, opened, written, closed, Session, Dependencies, sqlite_flags, mysql_flags, postgres_flags,
  generated, written_to, with_database, opened_with, run_database, open_sqlite, open_mysql,
  open_postgres, run_sqlite, run_mysql, run_postgres,
}

Result-cases {ℓ} :
    {A : Type ℓ} (r : Result A) → ((e : Error) × (r ≡ err e)) ⊎ ((a : A) × (r ≡ ok a))
Result-cases (err e) = inl (e, refl)
Result-cases (ok a) = inr (a, refl)

module _ {D : Type 0} (deps : Dependencies D) (parsed : Result (Text → Text))
    (opening : (Text → Text) → Result D) (connect : Text) (name : (Text → Text) → Text)
    (s : Session D) where
  -- The ways in which a command ends: the flags are refused; no database is opened; a call on the open
  -- database fails; or all succeed, and the text is written.
  pub data Ends : Result (Unit {0}) × Session D → Type 0 where
    unparsed : (e : Error) → parsed ≡ err e → Ends (err e, s)
    unopened :
        (flags : Text → Text) (e : Error)
        → parsed ≡ ok flags
        → opening flags ≡ err e
        → Ends (err e, s)
    failed :
        (flags : Text → Text) (d : D) (e : Error)
        → parsed ≡ ok flags
        → opening flags ≡ ok d
        → generated connect deps d (name flags) (flags (codes "package")) ≡ err e
        → Ends (err e, record s { events = s.events ++ opened d ∷ closed d ∷ [] })
    finished :
        (flags : Text → Text) (d : D) (b : List ℕ)
        → parsed ≡ ok flags
        → opening flags ≡ ok d
        → generated connect deps d (name flags) (flags (codes "package")) ≡ ok b
        → Ends (
          (deps.write (flags (codes "output")) b s.world).0,
          record {
            world = (deps.write (flags (codes "output")) b s.world).1;
            events = s.events ++ opened d ∷ written (flags (codes "output")) ∷ closed d ∷ [];
          },
        )

  opened_with-Ends :
      (flags : Text → Text)
      → parsed ≡ ok flags
      → Ends (
          opened_with connect deps
            (opening flags)
            (name flags)
            (flags (codes "package"))
            (flags (codes "output"))
            s)
  unfolding opened_with with_database written_to
  opened_with-Ends flags p = elim (Result-cases (opening flags)) [
    | inl (e, o) ↦ rw o (unopened flags e p o)
    | inr (d, o) ↦
        rw o
          (elim (Result-cases (generated connect deps d (name flags) (flags (codes "package")))) [
            | inl (e, g) ↦
                rw (with_database, g, append_assoc s.events (opened d ∷ []) (closed d ∷ []))
                  (failed flags d e p o g)
            | inr (b, g) ↦
                rw
                  (
                    with_database,
                    g,
                    append_assoc (s.events ++ opened d ∷ []) (written (flags (codes "output")) ∷ [])
                        (closed d ∷ []),
                    append_assoc s.events (opened d ∷ [])
                        (written (flags (codes "output")) ∷ closed d ∷ []),
                  )
                  (finished flags d b p o g)
          ])
  ]

run_database-Ends :
    {D : Type 0} (deps : Dependencies D) (parsed : Result (Text → Text))
    (opening : (Text → Text) → Result D) (connect : Text) (name : (Text → Text) → Text)
    (s : Session D)
    → Ends deps parsed opening connect name s (run_database connect deps parsed opening name s)
unfolding run_database
run_database-Ends deps (err e) opening connect name s = unparsed e refl
run_database-Ends deps (ok flags) opening connect name s =
    opened_with-Ends deps (ok flags) opening connect name s flags refl

-- Each of the three commands that read a database ends in one of these ways: the flags or the opening
-- are refused, and nothing happens; the connection, the introspection or the generation fails, which
-- is the error, nothing is written, and the database is closed; or all succeed, the text is written,
-- the database is closed behind that, and the result is that of the writing.
pub run-Ends :
    {D : Type 0} (parse : Parse) (arguments : List Text) (deps : Dependencies D) (s : Session D)
    → Ends deps
        (parse sqlite_flags arguments)
        (open_sqlite deps)
        (codes "connect to SQLite: ")
        (λ flags. [])
        s
        (run_sqlite parse arguments deps s)
      × Ends deps
          (parse mysql_flags arguments)
          (open_mysql deps)
          (codes "connect to MySQL: ")
          (λ flags. flags (codes "database"))
          s
          (run_mysql parse arguments deps s)
      × Ends deps
          (parse postgres_flags arguments)
          (open_postgres deps)
          (codes "connect to PostgreSQL: ")
          (λ flags. flags (codes "schema"))
          s
          (run_postgres parse arguments deps s)
unfolding run_sqlite run_mysql run_postgres
run-Ends parse arguments deps s = (
  run_database-Ends deps (parse sqlite_flags arguments) _ _ _ s,
  run_database-Ends deps (parse mysql_flags arguments) _ _ _ s,
  run_database-Ends deps (parse postgres_flags arguments) _ _ _ s,
)
