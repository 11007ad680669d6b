-- ===== src/Command/Write/Atomic.antt =====
-- About writeGenerated of cmd/tiqq-gen/main.go: what it does to the files on every path.
use tiqq.Prelude.{
  ℕ, true, List, [], Option, none, some, Option-cases, Text, codes, equal-false, equal_refl,
  Bool-cases, Result, ok, err, Error, ◌≡◌, ◌≢◌, inl, inr, refl, sym, ◌∙◌,
}
use tiqq.Command.Write.{
  Files, World, update, Answers, put_file, write_file, rename_file, fill_temporary, clean_up,
  write_to_file, write_generated,
}

-- Either the target holds the whole text and there is no error, or it is what it was and there is one.
abbrev pub IsAtomic : Text → List ℕ → World → Result (Unit {0}) × World → Type 0
IsAtomic path b w (ok done, w') = w'.files path ≡ some b
IsAtomic path b w (err e, w') = w'.files path ≡ w.files path

-- The end of a run that writes `b` to a file.
pub record Replaces (a : Answers) (path : Text) (b : List ℕ) (w : World)
    (o : Result (Unit {0}) × World) : Type 0 where
  pub atomic : IsAtomic path b w o
  pub others : (p : Text) → p ≢ path → p ≢ a.temporary → o.1.files p ≡ w.files p
  pub cleaned : a.removed ≡ true → o.1.files a.temporary ≡ none
  pub silent : o.1.printed ≡ w.printed

-- Nothing but the text of one file differs.
record OnlyFile (t : Text) (w w' : World) : Type 0 where
  others : (p : Text) → p ≢ t → w'.files p ≡ w.files p
  printed : w'.printed ≡ w.printed

update_self : (f : Files) (p : Text) (c : Option (List ℕ)) → update f p c p ≡ c
update_self f p c = rw (equal_refl p) refl

update_other : (f : Files) (p q : Text) (c : Option (List ℕ)) → q ≢ p → update f p c q ≡ f q
update_other f p q c h = rw (equal-false p q (λ e. h (sym e))) refl

OnlyFile-put_file :
    {t : Text} {w w' : World} (c : Option (List ℕ))
    → OnlyFile t w w'
    → OnlyFile t w (put_file t c w')
OnlyFile-put_file {t} {w} {w'} c h = record {
  others = λ p n. update_other w'.files t p c n ∙ h.others p n;
  printed = h.printed;
}

OnlyFile-same : {t : Text} (w : World) → OnlyFile t w w
OnlyFile-same w = record { others = λ p n. refl; printed = refl }

module _ (a : Answers) (path : Text) (b : List ℕ) (w : World) where
  -- The ways in which the calls end: nothing was created, a later call failed, or all succeeded.
  data Ends : Result (Unit {0}) × World → Type 0 where
    not_created : (e : Error) → Ends (err e, w)
    failed :
        (e : Error) (w' : World)
        → OnlyFile a.temporary w w'
        → Ends (clean_up a a.temporary (err e, w'))
    renamed :
        (w' : World)
        → OnlyFile a.temporary w w'
        → w'.files a.temporary ≡ some b
        → Ends (ok tt, put_file a.temporary none (put_file path (w'.files a.temporary) w'))

  abbrev opened : World
  opened = put_file a.temporary (some []) w

  abbrev filled : World
  filled = put_file a.temporary (some b) opened

  opened-OnlyFile : OnlyFile a.temporary w opened
  opened-OnlyFile = OnlyFile-put_file (some []) (OnlyFile-same w)

  filled-OnlyFile : OnlyFile a.temporary w filled
  filled-OnlyFile = OnlyFile-put_file (some b) opened-OnlyFile

  write_to_file-Ends : Ends (write_to_file a path b w)
  unfolding write_to_file fill_temporary write_file rename_file
  write_to_file-Ends = elim (Option-cases a.create_error) [
    | inr (e, h) ↦ rw h (not_created _)
    | inl h ↦ rw h (elim (Option-cases a.chmod_error) [
      | inr (e, h1) ↦ rw h1 (failed _ opened opened-OnlyFile)
      | inl h1 ↦ rw h1 (elim (Option-cases a.write_error) [
        | inr (e, h2) ↦ rw h2 (failed _ _ (OnlyFile-put_file (some a.partial) opened-OnlyFile))
        | inl h2 ↦ rw h2 (elim (Option-cases a.sync_error) [
          | inr (e, h3) ↦ rw h3 (failed _ filled filled-OnlyFile)
          | inl h3 ↦ rw h3 (elim (Option-cases a.close_error) [
            | inr (e, h4) ↦ rw h4 (failed _ filled filled-OnlyFile)
            | inl h4 ↦ rw h4 (elim (Option-cases a.rename_error) [
              | inr (e, h5) ↦ rw h5 (failed _ filled filled-OnlyFile)
              | inl h5 ↦
                  rw h5
                    (renamed filled filled-OnlyFile (update_self opened.files a.temporary (some b)))
            ])
          ])
        ])
      ])
    ])
  ]

module _ (a : Answers) (path : Text) (b : List ℕ) (w : World) (target : path ≢ codes "-")
    (fresh : w.files a.temporary ≡ none) (apart : a.temporary ≢ path) where
  failed-Replaces :
      (e : Error) (w' : World)
      → OnlyFile a.temporary w w'
      → Replaces a path b w (clean_up a a.temporary (err e, w'))
  unfolding clean_up
  failed-Replaces e w' h = elim (Bool-cases a.removed) [
    | inl gone ↦
        let k : OnlyFile a.temporary w (put_file a.temporary none w') = OnlyFile-put_file none h in
        rw gone (record {
          atomic = k.others path (λ q. apart (sym q));
          others = λ p n m. k.others p m;
          cleaned = λ r. update_self w'.files a.temporary none;
          silent = k.printed;
        })
    | inr left ↦ simp left (record {
      atomic = h.others path (λ q. apart (sym q));
      others = λ p n m. h.others p m;
      cleaned = λ r. cc (sym left ∙ r);
      silent = h.printed;
    })
  ]

  Ends-Replaces : {o : Result (Unit {0}) × World} → Ends a path b w o → Replaces a path b w o
  Ends-Replaces (not_created e) = record {
    atomic = refl;
    others = λ p n m. refl;
    cleaned = λ r. fresh;
    silent = refl;
  }
  Ends-Replaces (failed e w' h) = failed-Replaces e w' h
  Ends-Replaces (renamed w' h c) =
      let moved : Files = update w'.files path (w'.files a.temporary) in
      record {
        atomic =
            update_other moved a.temporary path none (λ q. apart (sym q))
            ∙ (update_self w'.files path (w'.files a.temporary) ∙ c);
        others = λ p n m.
            update_other moved a.temporary p none m
            ∙ (update_other w'.files path p (w'.files a.temporary) n ∙ h.others p m);
        cleaned = λ r. update_self moved a.temporary none;
        silent = h.printed;
      }

  -- If the output is no `-`, and the temporary file's name is no file's and not the output's, then on
  -- every path the output holds the whole text and there is no error, or it is what it was and there
  -- is an error; no other file is changed, nothing is printed, and, unless its removal fails, no
  -- temporary file is left.
  pub write_generated-Replaces : Replaces a path b w (write_generated a path b w)
  unfolding write_generated
  write_generated-Replaces =
      rw (equal-false path (codes "-") target) (Ends-Replaces (write_to_file-Ends a path b w))
