-- ===== src/Codegen/Names/Unique.antt =====
-- About validateGeneratedNames of codegen/generate.go: which schemas it accepts.
use tiqq.Prelude.{
  Bool, true, false, not, List, [], ◌∷◌, ◌++◌, map, Text, codes, KeySet, has, has_iff, Elem,
  Distinct, Fresh, Fresh-iff, All, if◌then◌else◌, Result, ok, err, errorf, panic, Error, >>_iff,
  >>=_iff, ok-injective, ◌≡◌, ◌↔◌, refl, subst, sym, ap, arith,
}
use tiqq.Schema.{Table, Column}
use tiqq.Codegen.Words.{Unicode, is_identifier}
use tiqq.Codegen.Names.{
  singular, exported, generated_identifier, Claims, claimed, table_identifiers, claim_all,
  generated_table_methods, in_table, claim_field, check_fields, check_tables,
  validate_generated_names,
}

-- the keys remembered behind a list of them
abbrev after : List Text → KeySet → KeySet
after [] seen = seen
after (k ∷ ks) seen = after ks (k ∷ seen)

Fresh-append :
    (seen ks js : List Text) → Fresh seen (ks ++ js) ↔ (Fresh seen ks × Fresh (after ks seen) js)
Fresh-append seen [] js = ((λ h. (tt, h)), λ h. h.1)
Fresh-append seen (k ∷ ks) js =
    let i = Fresh-append (k ∷ seen) ks js in
    ((λ (n, h). let (a, b) = i.0 h in ((n, a), b)), λ ((n, a), b). (n, i.1 (a, b)))

abbrev claims : Text → List Text → Claims → Claims
claims name [] top = top
claims name (k ∷ ks) top = claims name ks ((k, name) ∷ top)

claimed-claims :
    (name : Text) (ks : List Text) (top : Claims)
    → claimed (claims name ks top) ≡ after ks (claimed top)
claimed-claims name [] top = refl
claimed-claims name (k ∷ ks) top = claimed-claims name ks ((k, name) ∷ top)

claim_all_iff :
    (name : Text) (ks : List Text) (top more : Claims)
    → (claim_all name ks top ≡ ok more) ↔ (Fresh (claimed top) ks × (claims name ks top ≡ more))
unfolding claim_all
claim_all_iff name [] top more = ((λ h. (tt, ok-injective h)), λ h. ap ok h.1)
claim_all_iff name (k ∷ ks) top more =
    ground (arith, has_iff (claimed top) k, claim_all_iff name ks ((k, name) ∷ top) more)

in_table_iff {ℓ} :
    {A : Type ℓ} (name : Text) (m : Result A) {a : A} → (in_table name m ≡ ok a) ↔ (m ≡ ok a)
in_table_iff name (ok b) = ((λ h. h), λ h. h)
in_table_iff name (err (errorf e)) = ((λ h. cc), λ h. cc)
in_table_iff name (err (panic e)) = ((λ h. cc), λ h. cc)

claim_field_iff :
    (table column field : Text) (fields more : Claims)
    → (claim_field table column field fields ≡ ok more) ↔ (
        (¬ Elem field generated_table_methods)
        × ((¬ Elem field (claimed fields)) × ((field, column) ∷ fields ≡ more)))
unfolding claim_field
claim_field_iff table column field fields more =
    guards _ _ _ (has generated_table_methods field) (has (claimed fields) field)
      (has_iff generated_table_methods field) (has_iff (claimed fields) field)
  where
    guards :
        {P Q : Type 0} (e f : Error) (m : Claims) (a b : Bool)
        → (a ≡ true) ↔ P
        → (b ≡ true) ↔ Q
        → ((if a then err e else if b then err f else ok m) ≡ ok more)
          ↔ ((¬ P) × ((¬ Q) × (m ≡ more)))
    guards e f m true b p q = ((λ h. cc), λ h. absurd (h.0 (p.0 refl)))
    guards e f m false true p q = ((λ h. cc), λ h. absurd (h.1.0 (q.0 refl)))
    guards e f m false false p q =
        ((λ h. ((λ m. cc (p.1 m)), ((λ m. cc (q.1 m)), ok-injective h))), λ h. ap ok h.1.1)

module _ (unicode : Unicode) where
  abbrev pub field_name : Column → Text
  field_name c = exported unicode c.column_name

  abbrev pub type_name : Table → Text
  type_name t = exported unicode (singular t.table_name)

  abbrev pub IsGoName : Text → Type 0
  IsGoName n = is_identifier unicode n ≡ true

  -- The fields of a generated struct: identifiers, none twice, and none named like a method.
  pub record HasFields (t : Table) : Type 0 where
    pub valid : All (λ c. IsGoName (field_name c)) t.columns
    pub no_method : All (λ c. ¬ Elem (field_name c) generated_table_methods) t.columns
    pub once : Distinct (map field_name t.columns)

  -- All names that the tables declare in the package.
  abbrev pub declared : List Table → List Text
  declared [] = []
  declared (t ∷ ts) = table_identifiers (type_name t) ++ declared ts

  generated_identifier_iff :
      (kind name base i : Text)
      → (generated_identifier unicode kind name base ≡ ok i)
        ↔ (IsGoName (exported unicode base) × (exported unicode base ≡ i))
  unfolding generated_identifier
  generated_identifier_iff kind name base i =
      guard _ (is_identifier unicode (exported unicode base))
    where
      guard :
          (e : Error) (b : Bool)
          → ((if not b then err e else ok (exported unicode base)) ≡ ok i)
            ↔ ((b ≡ true) × (exported unicode base ≡ i))
      guard e true = ((λ h. (refl, ok-injective h)), λ h. ap ok h.1)
      guard e false = ((λ h. cc), λ h. cc (h.0))

  abbrev FieldsFrom : Claims → List Column → Type 0
  FieldsFrom fields cs =
      All (λ c. IsGoName (field_name c)) cs
      × (All (λ c. ¬ Elem (field_name c) generated_table_methods) cs
          × Fresh (claimed fields) (map field_name cs))

  check_fields_iff :
      (table : Text) (fields : Claims) (cs : List Column)
      → (check_fields unicode table fields cs ≡ ok tt) ↔ FieldsFrom fields cs
  unfolding check_fields
  check_fields_iff table fields [] = ((λ h. (tt, (tt, tt))), λ h. refl)
  check_fields_iff table fields (c ∷ cs) =
      let i =
        >>=_iff
          (in_table table
            (generated_identifier unicode (codes "column") c.column_name c.column_name))
          _
          (λ field.
            >>=_iff (claim_field table c.column_name field fields) _
              (λ more. check_fields_iff table more cs)) in
      (
        (λ h.
            let (field, e, (more, f, (valid, (methods, fresh)))) = i.0 h in
            let (good, same) =
              (generated_identifier_iff (codes "column") c.column_name c.column_name field).0
                ((in_table_iff table _).0 e) in
            let (no_method, (new, shape)) =
              (claim_field_iff table c.column_name field fields more).0 f in
            (
              (good, valid),
              (
                (subst (λ x. ¬ Elem x generated_table_methods) (sym same) no_method, methods),
                (
                  subst (λ x. ¬ Elem x (claimed fields)) (sym same) new,
                  subst (λ x. Fresh (x ∷ claimed fields) (map field_name cs)) (sym same)
                      (subst (λ x. Fresh (claimed x) (map field_name cs)) (sym shape) fresh),
                ),
              ),
            )),
        λ ((good, valid), ((no_method, methods), (new, fresh))). i.1 (
          field_name c,
          (in_table_iff table _).1 (
              (generated_identifier_iff (codes "column") c.column_name c.column_name
                  (field_name c)).1
                (good, refl)),
          (
            (field_name c, c.column_name) ∷ fields,
            (claim_field_iff table c.column_name (field_name c) fields _).1
                (no_method, (new, refl)),
            (valid, (methods, fresh)),
          ),
        ),
      )

  check_fields-HasFields :
      (t : Table) → (check_fields unicode t.table_name [] t.columns ≡ ok tt) ↔ HasFields t
  check_fields-HasFields t =
      let i = check_fields_iff t.table_name [] t.columns in
      let f = Fresh-iff (map field_name t.columns) in
      (
        (λ h. let (v, (m, o)) = i.0 h in record { valid = v; no_method = m; once = f.0 o }),
        λ r. i.1 (r.valid, (r.no_method, f.1 r.once)),
      )

  check_tables_iff :
      (top : Claims) (ts : List Table)
      → (check_tables unicode top ts ≡ ok tt) ↔ (
          All (λ t. IsGoName (type_name t)) ts
          × (All HasFields ts × Fresh (claimed top) (declared ts)))
  unfolding check_tables
  check_tables_iff top [] = ((λ h. (tt, (tt, tt))), λ h. refl)
  check_tables_iff top (t ∷ ts) =
      let i =
        >>=_iff (generated_identifier unicode (codes "table") t.table_name (singular t.table_name))
          _
          (λ n.
            >>=_iff (claim_all t.table_name (table_identifiers n) top) _
              (λ more. >>_iff _ _ (check_fields-HasFields t) (check_tables_iff more ts))) in
      let split = Fresh-append (claimed top) (table_identifiers (type_name t)) (declared ts) in
      let reach = claimed-claims t.table_name (table_identifiers (type_name t)) top in
      (
        (λ h.
            let (n, e, (more, f, (fields, (nameds, (fieldss, fresh))))) = i.0 h in
            let (named, same) =
              (generated_identifier_iff (codes "table") t.table_name (singular t.table_name) n).0
                e in
            let (new, shape) =
              (claim_all_iff t.table_name (table_identifiers (type_name t)) top more).0 (
                subst (λ x. claim_all t.table_name (table_identifiers x) top ≡ ok more) (sym same)
                  f) in
            (
              (named, nameds),
              (
                (fields, fieldss),
                split.1 (
                  new,
                  subst (λ x. Fresh x (declared ts)) reach
                      (subst (λ x. Fresh (claimed x) (declared ts)) (sym shape) fresh),
                ),
              ),
            )),
        λ ((named, nameds), ((fields, fieldss), fresh)).
            let (new, rest) = split.0 fresh in
            i.1 (
              type_name t,
              (generated_identifier_iff (codes "table") t.table_name (singular t.table_name)
                    (type_name t)).1
                  (named, refl),
              (
                claims t.table_name (table_identifiers (type_name t)) top,
                (claim_all_iff t.table_name (table_identifiers (type_name t)) top _).1 (new, refl),
                (fields, (nameds, (fieldss, subst (λ x. Fresh x (declared ts)) (sym reach) rest))),
              ),
            ),
      )

  -- `validateGeneratedNames` accepts exactly the lists of tables in which the type name of every table
  -- is a Go identifier, the fields of every table are Go identifiers, none twice and none named like
  -- a generated method, and all identifiers that the tables declare are different.
  pub validate_generated_names_iff :
      (ts : List Table)
      → (validate_generated_names unicode ts ≡ ok tt)
        ↔ (All (λ t. IsGoName (type_name t)) ts × All HasFields ts × Distinct (declared ts))
  unfolding validate_generated_names
  validate_generated_names_iff ts =
      let i = check_tables_iff [] ts in
      let f = Fresh-iff (declared ts) in
      ((λ h. let (a, (b, c)) = i.0 h in (a, b, f.0 c)), λ (a, b, c). i.1 (a, (b, f.1 c)))
