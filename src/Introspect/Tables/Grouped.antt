-- ===== src/Introspect/Tables/Grouped.antt =====
-- About the loop over columns that introspect/postgres/postgres.go and introspect/mysql/mysql.go share.
use tiqq.Prelude.{
  ℕ, suc, ◌+◌, List, [], ◌∷◌, ◌++◌, map, append_assoc, append-nil, none, some, Text, equal,
  equal_iff, equal-false, equal_refl, if◌then◌else◌, Bool-cases, if_true, if_false, length,
  length-map, has, has_iff, Elem, Distinct, ok, lookup, put, ◌≡◌, ◌≢◌, ◌↔◌, ◌⊎◌, inl, inr, refl,
  sym, ap, subst, ◌∙◌, arith,
}
use native.Mathlib.Nat.{zero-add}
use tiqq.Schema.{Column, Table}
use tiqq.Introspect.Tables.{
  Tables, no_tables, index_of, update_at, empty_table, open_table, append_column, add_column,
  collect_columns,
}

-- Every name with its place, counted from a number.
abbrev pub indexed : ℕ → List Text → List (Text × ℕ)
indexed k [] = []
indexed k (n ∷ ns) = (n, k) ∷ indexed (suc k) ns

-- A name at the end of the names, unless it is one of them.
abbrev pub add_last : List Text → Text → List Text
add_last ns n = if has ns n then ns else ns ++ n ∷ []

module _ {ℓ} {A : Type ℓ} (owner : A → Text) where
  -- The names of the tables that the rows belong to, in the order in which they are first met.
  abbrev pub first_met : List Text → List A → List Text
  first_met seen [] = seen
  first_met seen (r ∷ rs) = first_met (add_last seen (owner r)) rs

Elem-last : (ns : List Text) (m n : Text) → Elem m (ns ++ n ∷ []) ↔ (Elem m ns ⊎ (n ≡ m))
Elem-last [] m n =
    ((λ e. elim e [ inl p ↦ inr p | inr q ↦ absurd q ]), elim [ inl p ↦ absurd p | inr q ↦ inl q ])
Elem-last (k ∷ ns) m n = ground (arith, Elem-last ns m n)

Distinct-last : (ns : List Text) (n : Text) → Distinct ns → ¬ Elem n ns → Distinct (ns ++ n ∷ [])
Distinct-last [] n d h = ((λ e. e), tt)
Distinct-last (k ∷ ns) n (g, d) h = (
  (λ e. elim ((Elem-last ns k n).0 e) [ inl p ↦ g p | inr q ↦ h (inl (sym q)) ]),
  Distinct-last ns n d (λ e. h (inr e)),
)

Elem-add_last : (ns : List Text) (m n : Text) → Elem m (add_last ns n) ↔ (Elem m ns ⊎ (n ≡ m))
Elem-add_last ns m n = elim (Bool-cases (has ns n)) [
  | inl e ↦
      rw e
        ((λ h. inl h), elim [ inl p ↦ p | inr q ↦ subst (λ k. Elem k ns) q ((has_iff ns n).0 e) ])
  | inr d ↦ rw d (Elem-last ns m n)
]

Distinct-add_last : (ns : List Text) (n : Text) → Distinct ns → Distinct (add_last ns n)
Distinct-add_last ns n d = elim (Bool-cases (has ns n)) [
  | inl e ↦ rw e d
  | inr f ↦ rw f (Distinct-last ns n d (λ m. cc (sym f ∙ (has_iff ns n).1 m)))
]

indexed-last :
    (k : ℕ) (ns : List Text) (n : Text)
    → indexed k (ns ++ n ∷ []) ≡ indexed k ns ++ (n, k + length ns) ∷ []
indexed-last k [] n = ap (λ (j : ℕ). (n, j) ∷ []) (omega arith)
indexed-last k (m ∷ ns) n =
    ap (λ rest. (m, k) ∷ rest)
      (indexed-last (suc k) ns n ∙ ap (λ (j : ℕ). indexed (suc k) ns ++ (n, j) ∷ []) (omega arith))

put_missing :
    (n : Text) (i k : ℕ) (ns : List Text)
    → ¬ Elem n ns
    → put equal n i (indexed k ns) ≡ indexed k ns ++ (n, i) ∷ []
unfolding put
put_missing n i k [] h = refl
put_missing n i k (m ∷ ns) h =
    if_false (equal-false m n (λ e. h (inl e))) _ _
    ∙ ap (λ rest. (m, k) ∷ rest) (put_missing n i (suc k) ns (λ e. h (inr e)))

lookup_missing :
    (n : Text) (k : ℕ) (ns : List Text) → ¬ Elem n ns → lookup equal n (indexed k ns) ≡ none
unfolding lookup
lookup_missing n k [] h = refl
lookup_missing n k (m ∷ ns) h =
    if_false (equal-false m n (λ e. h (inl e))) _ _ ∙ lookup_missing n (suc k) ns (λ e. h (inr e))

map_others :
    (F F' : Text → Table) (n : Text)
    → ((m : Text) → m ≢ n → F' m ≡ F m)
    → (ns : List Text) → ¬ Elem n ns
    → map F ns ≡ map F' ns
map_others F F' n o [] h = refl
map_others F F' n o (m ∷ ns) h = cc (o m (λ e. h (inl e)), map_others F F' n o ns (λ e. h (inr e)))

same_tables :
    {ts us : List Table} {m n : List (Text × ℕ)}
    → ts ≡ us
    → m ≡ n
    → ◌≡◌ {A = Tables} (record { list = ts; index = m }) (record { list = us; index = n })
same_tables e f = cc (e, f)

-- A change at the place of a name changes what a function gives for that name.
update_named :
    (F F' : Text → Table) (g : Table → Table) (n : Text)
    → F' n ≡ g (F n)
    → ((m : Text) → m ≢ n → F' m ≡ F m)
    → (k : ℕ) (ns : List Text) → Distinct ns
    → Elem n ns
    → (i : ℕ) × (lookup equal n (indexed k ns) ≡ some (k + i))
      × (update_at i g (map F ns) ≡ ok (map F' ns))
unfolding lookup update_at
update_named F F' g n h o k [] d e = absurd e
update_named F F' g n h o k (m ∷ ns) (f, d) e = elim (Bool-cases (equal m n)) [
  | inl same ↦
      let q : m ≡ n = (equal_iff m n).0 same in
      (
        0,
        if_true same _ _ ∙ ap (λ (j : ℕ). some j) (omega arith),
        cc (h, q, map_others F F' n o ns (subst (λ j. ¬ Elem j ns) q f)),
      )
  | inr differ ↦
      let apart : m ≢ n = λ q. cc (sym differ ∙ (equal_iff m n).1 q) in
      let later : Elem n ns = elim e [ inl q ↦ absurd (apart q) | inr l ↦ l ] in
      let (i, l, u) = update_named F F' g n h o (suc k) ns d later in
      (suc i, if_false differ _ _ ∙ l ∙ ap (λ (j : ℕ). some j) (omega arith), rw u (cc (o m apart)))
]

module _ {ℓ} {A : Type ℓ} (schema_name : Text) (owner : A → Text) (column_of : A → Column) where
  -- The columns of the rows of a table.
  abbrev pub columns_of : Text → List A → List Column
  columns_of n [] = []
  columns_of n (r ∷ rs) =
      let rest = columns_of n rs in if equal (owner r) n then column_of r ∷ rest else rest

  -- The rows, grouped by tables.
  abbrev pub grouped : List A → Tables
  grouped rs = record {
    list =
        map (λ (n : Text). record (empty_table schema_name n) { columns = columns_of n rs })
          (first_met owner [] rs);
    index = indexed 0 (first_met owner [] rs);
  }

  columns_of-last :
      (n : Text) (rs : List A) (r : A)
      → columns_of n (rs ++ r ∷ [])
        ≡ columns_of n rs ++ (if equal (owner r) n then column_of r ∷ [] else [])
  columns_of-last n [] r = refl
  columns_of-last n (q ∷ rs) r = elim (Bool-cases (equal (owner q) n)) [
    | inl e ↦ rw e (ap (λ cs. column_of q ∷ cs) (columns_of-last n rs r))
    | inr d ↦ rw d (columns_of-last n rs r)
  ]

  first_met-last :
      (seen : List Text) (rs : List A) (r : A)
      → first_met owner seen (rs ++ r ∷ []) ≡ add_last (first_met owner seen rs) (owner r)
  first_met-last seen [] r = refl
  first_met-last seen (q ∷ rs) r = first_met-last (add_last seen (owner q)) rs r

  Elem-first_met :
      (n : Text) (seen : List Text) (rs : List A) → Elem n seen → Elem n (first_met owner seen rs)
  Elem-first_met n seen [] m = m
  Elem-first_met n seen (r ∷ rs) m =
      Elem-first_met n (add_last seen (owner r)) rs ((Elem-add_last seen n (owner r)).1 (inl m))

  Distinct-first_met :
      (seen : List Text) (rs : List A) → Distinct seen → Distinct (first_met owner seen rs)
  Distinct-first_met seen [] d = d
  Distinct-first_met seen (r ∷ rs) d =
      Distinct-first_met (add_last seen (owner r)) rs (Distinct-add_last seen (owner r) d)

  -- A name that was not met has no columns.
  columns_of-missing :
      (n : Text) (seen : List Text) (rs : List A)
      → ¬ Elem n (first_met owner seen rs)
      → columns_of n rs ≡ []
  columns_of-missing n seen [] h = refl
  columns_of-missing n seen (r ∷ rs) h =
      if_false
        (equal-false (owner r) n (λ e. h (
          Elem-first_met n (add_last seen (owner r)) rs
            ((Elem-add_last seen n (owner r)).1 (inr e)))))
        _ _
      ∙ columns_of-missing n (add_last seen (owner r)) rs h

  abbrev table_of : List A → Text → Table
  table_of rs n = record (empty_table schema_name n) { columns = columns_of n rs }

  map-last :
      (F : Text → Table) (ns : List Text) (n : Text) → map F (ns ++ n ∷ []) ≡ map F ns ++ F n ∷ []
  map-last F [] n = refl
  map-last F (m ∷ ns) n = ap (λ ts. F m ∷ ts) (map-last F ns n)

  -- Before a column is added, the table of its row is there.
  open_table_grouped :
      (rs : List A) (n : Text)
      → open_table schema_name (grouped rs) n ≡ record {
        list = map (table_of rs) (add_last (first_met owner [] rs) n);
        index = indexed 0 (add_last (first_met owner [] rs) n);
      }
  unfolding open_table
  open_table_grouped rs n =
      let ns : List Text = first_met owner [] rs in
      elim (Bool-cases (has ns n)) [
        | inl e ↦
            let (i, l, u) =
              update_named (table_of rs) (table_of rs) (λ t. t) n refl (λ m h. refl) 0 ns
                (Distinct-first_met [] rs tt) ((has_iff ns n).0 e) in
            rw (e, open_table, l) refl
        | inr d ↦
            let missing : ¬ Elem n ns = λ m. cc (sym d ∙ (has_iff ns n).1 m) in
            rw (d, open_table, lookup_missing n 0 ns missing)
              (same_tables
                (ap
                    (λ cs.
                      map (table_of rs) ns
                      ++ record (empty_table schema_name n) { columns = cs } ∷ [])
                    (sym (columns_of-missing n [] rs missing))
                  ∙ sym (map-last (table_of rs) ns n))
                (put_missing n (length (map (table_of rs) ns)) 0 ns missing
                  ∙ ap (λ (j : ℕ). indexed 0 ns ++ (n, j) ∷ [])
                      (length-map ns (table_of rs) ∙ sym (zero-add (length ns)))
                  ∙ sym (indexed-last 0 ns n)))
      ]

  with_columns :
      (n : Text) {cs ds : List Column}
      → cs ≡ ds
      → record (empty_table schema_name n) { columns = cs }
        ≡ record (empty_table schema_name n) { columns = ds }
  with_columns n e = ap (λ cs. record (empty_table schema_name n) { columns = cs }) e

  table_of_same :
      (rs : List A) (r : A)
      → table_of (rs ++ r ∷ []) (owner r) ≡ append_column (column_of r) (table_of rs (owner r))
  table_of_same rs r = with_columns (owner r) (
      columns_of-last (owner r) rs r
      ∙ ap (λ cs. columns_of (owner r) rs ++ cs) (if_true (equal_refl (owner r)) _ _))

  table_of_other :
      (rs : List A) (r : A) (m : Text) → m ≢ owner r → table_of (rs ++ r ∷ []) m ≡ table_of rs m
  table_of_other rs r m h = with_columns m (
      columns_of-last m rs r
      ∙ ap (λ cs. columns_of m rs ++ cs) (if_false (equal-false (owner r) m (λ e. h (sym e))) _ _)
      ∙ append-nil (columns_of m rs))

  -- The body of the loop takes the grouped rows before a row to those behind it.
  add_column_grouped :
      (rs : List A) (r : A)
      → add_column schema_name (grouped rs) (owner r) (column_of r) ≡ ok (grouped (rs ++ r ∷ []))
  unfolding add_column index_of
  add_column_grouped rs r =
      let ns : List Text = add_last (first_met owner [] rs) (owner r) in
      let (i, l, u) =
        update_named (table_of rs) (table_of (rs ++ r ∷ [])) (append_column (column_of r)) (owner r)
          (table_of_same rs r) (table_of_other rs r) 0 ns
          (Distinct-add_last _ _ (Distinct-first_met [] rs tt))
          ((Elem-add_last (first_met owner [] rs) (owner r) (owner r)).1 (inr refl)) in
      rw (open_table_grouped rs (owner r), l, zero-add i, u)
        (ap
          (λ (ms : List Text).
            ok (record { list = map (table_of (rs ++ r ∷ [])) ms; index = indexed 0 ms }))
          (sym (first_met-last [] rs r)))

  collect_columns_grouped :
      (prefix : Text) (done rs : List A)
      → collect_columns prefix schema_name owner column_of (grouped done) (map ok rs)
        ≡ ok (grouped (done ++ rs))
  unfolding collect_columns
  collect_columns_grouped prefix done [] = ap (λ l. ok (grouped l)) (sym (append-nil done))
  collect_columns_grouped prefix done (r ∷ rs) = rw (add_column_grouped done r) (
      collect_columns_grouped prefix (done ++ r ∷ []) rs
      ∙ ap (λ l. ok (grouped l)) (append_assoc done (r ∷ []) rs))

  -- If every row is scanned, the loop over the rows never indexes out of range, and gives a table for
  -- each name that a row has, in the order in which the names are first met, with the columns of the
  -- rows with that name, in their order, and for each name the place of its table.
  pub collect_columns-grouped :
      (prefix : Text) (rs : List A)
      → (collect_columns prefix schema_name owner column_of no_tables (map ok rs) ≡ ok (grouped rs))
        × Distinct (first_met owner [] rs)
  collect_columns-grouped prefix rs =
      (collect_columns_grouped prefix [] rs, Distinct-first_met [] rs tt)
