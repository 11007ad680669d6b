-- ===== src/Codegen/Names.antt =====
-- The Go names that the generator makes of tables and columns: singular, exported,
-- generatedIdentifier and validateGeneratedNames. What package unicode says of the characters outside
-- ASCII is a parameter.
pub mod Unique
use tiqq.Prelude.{
  ℕ, Bool, true, false, not, ◌&&◌, ◌||◌, List, [], ◌∷◌, ◌++◌, map, Option, none, some, Text, codes,
  KeySet, has, equal, ◌==◌, is_empty, if◌then◌else◌, Result, ok, err, Error, errorf, ◌>>=◌, ◌>>◌,
}
use tiqq.Schema.{Table, Column}
use tiqq.Codegen.Words.{Unicode, unicode_upper, has_suffix, trim_suffix, is_identifier}

unfoldable pub singular : Text → Text
singular n =
    if has_suffix n (codes "sses")
    then trim_suffix n (codes "es")
    else if has_suffix n (codes "ies")
    then trim_suffix n (codes "ies") ++ codes "y"
    else if has_suffix n (codes "s")
    then trim_suffix n (codes "s")
    else n

abbrev pub is_separator : ℕ → Bool
is_separator c = c == b'_' || c == b'-'

-- `strings.FieldsFunc`: the parts between separators, none of which is empty. `part` is the one
-- being read.
unfoldable pub fields_from : Text → Text → List Text
fields_from part [] = if is_empty part then [] else part ∷ []
fields_from part (c ∷ s) =
    let rest = fields_from [] s in
    let more = fields_from (part ++ c ∷ []) s in
    if is_separator c then (if is_empty part then rest else part ∷ rest) else more

unfoldable pub export_part : Unicode → Text → Text
unfolding unicode_upper
export_part u [] = []
export_part u (c ∷ s) =
    if equal (map (unicode_upper u) (c ∷ s)) (codes "ID")
    then map (unicode_upper u) (c ∷ s)
    else unicode_upper u c ∷ s

unfoldable pub concat : List Text → Text
concat [] = []
concat (p ∷ ps) = p ++ concat ps

-- `strings.Join(parts, "")` of the parts in upper camel case
unfoldable pub exported : Unicode → Text → Text
unfolding fields_from export_part concat
exported u n = concat (map (export_part u) (fields_from [] n))

-- `%q` of a name is left as the name in quotes: the messages below quote names that are printable.
abbrev quoted : Text → Text
quoted n = codes "\"" ++ (n ++ codes "\"")

module _ (unicode : Unicode) where
  unfoldable pub generated_identifier : Text → Text → Text → Result Text
  generated_identifier kind database_name base =
      if not (is_identifier unicode (exported unicode base))
      then err (
          errorf (
            codes "codegen: "
            ++ (kind
                ++ (codes " name "
                    ++ (quoted database_name
                        ++ codes " cannot be converted to a valid Go identifier")))))
      else ok (exported unicode base)

-- `map[string]string`: the identifiers so far, with the name that each was made of.
abbrev pub Claims : Type 0
Claims = List (Text × Text)

abbrev pub claimed : Claims → KeySet
claimed = map (λ c. c.0)

abbrev pub claimant : Text → Claims → Text
claimant k [] = []
claimant k ((j, n) ∷ cs) = if equal j k then n else claimant k cs

-- The identifiers that a table's type name gives rise to.
abbrev pub table_identifiers : Text → List Text
table_identifiers t =
    (t ++ codes "Scope")
    ∷ (t ++ codes "TableDef")
    ∷ (codes "Nullable" ++ (t ++ codes "TableDef"))
    ∷ (t ++ codes "Table")
    ∷ []

unfoldable pub claim_all : Text → List Text → Claims → Result Claims
claim_all name [] top = ok top
claim_all name (k ∷ ks) top =
    if has (claimed top) k
    then err (
        errorf (
          codes "codegen: tables "
          ++ (quoted (claimant k top)
              ++ (codes " and "
                  ++ (quoted name ++ (codes " generate duplicate Go identifier " ++ k))))))
    else claim_all name ks ((k, name) ∷ top)

abbrev pub generated_table_methods : KeySet
generated_table_methods =
    codes "TiqqTableInfo"
    ∷ codes "TiqqJoinSource"
    ∷ codes "LeftJoin"
    ∷ codes "InnerJoin"
    ∷ codes "RightJoin"
    ∷ codes "FullJoin"
    ∷ codes "CrossJoin"
    ∷ codes "Where"
    ∷ codes "Select"
    ∷ codes "GroupBy"
    ∷ codes "Update"
    ∷ codes "Delete"
    ∷ codes "Insert"
    ∷ codes "As"
    ∷ []

-- `fmt.Errorf("codegen: table %q: %w", …)`
abbrev pub in_table {ℓ} : {A : Type ℓ} → Text → Result A → Result A
in_table name (ok a) = ok a
in_table name (err (errorf e)) =
    err (errorf (codes "codegen: table " ++ (quoted name ++ (codes ": " ++ e))))
in_table name (err e) = err e

abbrev about_column : Text → Text → Text → Text
about_column table column message =
    codes "codegen: table " ++ (quoted table ++ (codes " column " ++ (quoted column ++ message)))

-- The checks of one column's field behind its conversion.
unfoldable pub claim_field : Text → Text → Text → Claims → Result Claims
claim_field table column field fields =
    if has generated_table_methods field
    then err (
        errorf (
          about_column table column (
            codes " generates Go field "
            ++ (field ++ codes ", which conflicts with a generated method"))))
    else if has (claimed fields) field
    then err (
        errorf (
          codes "codegen: table "
          ++ (quoted table
              ++ (codes " columns "
                  ++ (quoted (claimant field fields)
                      ++ (codes " and "
                          ++ (quoted column
                              ++ (codes " generate duplicate Go field " ++ field))))))))
    else ok ((field, column) ∷ fields)

module _ (unicode : Unicode) where
  unfoldable pub check_fields : Text → Claims → List Column → Result (Unit {0})
  check_fields table fields [] = ok tt
  check_fields table fields (c ∷ cs) = do
    field ←
        in_table table (generated_identifier unicode (codes "column") c.column_name c.column_name)
    more ← claim_field table c.column_name field fields
    check_fields table more cs

  unfoldable pub check_tables : Claims → List Table → Result (Unit {0})
  check_tables top [] = ok tt
  check_tables top (t ∷ ts) = do
    type_name ← generated_identifier unicode (codes "table") t.table_name (singular t.table_name)
    more ← claim_all t.table_name (table_identifiers type_name) top
    check_fields t.table_name [] t.columns
    check_tables more ts

  unfoldable pub validate_generated_names : List Table → Result (Unit {0})
  unfolding check_tables
  validate_generated_names ts = check_tables [] ts
