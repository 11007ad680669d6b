-- ===== src/Introspect/Sqlite/Resolve.antt =====
-- About resolveReferencedColumns of introspect/sqlite/sqlite.go.
use tiqq.Prelude.{
  Bool, true, false, List, [], ◌∷◌, Option, none, some, Text, equal, equal_iff, length, ◌==◌,
  ==_iff, if◌then◌else◌, Bool-cases, if_true, if_false, ok, >>=_iff, ok_iff, ok-injective, ↔_trans,
  lookup, put, lookup-put, Elem, ◌≡◌, ◌↔◌, inl, inr, refl, sym, ap, ◌∙◌, subst,
}
use tiqq.Schema.{Key, ForeignKey, Table}
use tiqq.Introspect.{map_result, Pairs, map_result_iff}
use tiqq.Introspect.Sqlite.{
  tables_by_name, any_empty, primary_of, fill_key, resolve_key, resolve_table,
  resolve_referenced_columns,
}

-- The first of two that there is.
abbrev or_else : Option Table → Option Table → Option Table
or_else (some t) o = some t
or_else none o = o

-- The last table with a name.
abbrev pub last_named : Text → List Table → Option Table
last_named n [] = none
last_named n (t ∷ ts) = or_else (last_named n ts) (if equal t.table_name n then some t else none)

-- What a foreign key becomes: one that names all the columns that it references stays, and any other
-- takes those of the primary key of the table that it references, which are as many as its own.
pub data Resolved (ts : List Table) : ForeignKey → ForeignKey → Type 0 where
  kept : (k : ForeignKey) → ¬ Elem [] k.referenced_columns → Resolved ts k k
  filled :
      (k : ForeignKey) (t : Table) (p : Key)
      → Elem [] k.referenced_columns
      → last_named k.referenced_table ts ≡ some t
      → t.primary_key ≡ some p
      → length p.key_columns ≡ length k.foreign_columns
      → Resolved ts k (record k { referenced_columns = p.key_columns })

-- A table that keeps all but its foreign keys, which are resolved one by one.
abbrev pub ResolvedTable : List Table → Table → Table → Type 0
ResolvedTable ts t t' =
    Pairs (Resolved ts) t.foreign_keys t'.foreign_keys
    × (t' ≡ record t { foreign_keys = t'.foreign_keys })

any_empty_iff : (cs : List Text) → (any_empty cs ≡ true) ↔ Elem [] cs
unfolding any_empty
any_empty_iff [] = ((λ h. cc h), λ m. absurd m)
any_empty_iff ([] ∷ cs) = ((λ h. inl refl), λ m. refl)
any_empty_iff ((c ∷ d) ∷ cs) =
    ((λ h. inr ((any_empty_iff cs).0 h)), elim [ inl e ↦ cc e | inr m ↦ (any_empty_iff cs).1 m ])

or_else_assoc : (a b c : Option Table) → or_else (or_else a b) c ≡ or_else a (or_else b c)
or_else_assoc (some t) b c = refl
or_else_assoc none b c = refl

or_else-some :
    (b : Bool) (t : Table) (o : Option Table)
    → or_else (if b then some t else none) o ≡ (if b then some t else o)
or_else-some true t o = refl
or_else-some false t o = refl

lookup-tables_by_name :
    (n : Text) (ts : List Table) (m : List (Text × Table))
    → lookup equal n (tables_by_name m ts) ≡ or_else (last_named n ts) (lookup equal n m)
lookup-tables_by_name n [] m = refl
lookup-tables_by_name n (t ∷ ts) m =
    lookup-tables_by_name n ts (put equal t.table_name t m)
    ∙ ap (or_else (last_named n ts)) (
        lookup-put equal equal_iff n t.table_name t m
        ∙ sym (or_else-some (equal t.table_name n) t (lookup equal n m)))
    ∙ sym (or_else_assoc (last_named n ts) _ (lookup equal n m))

or_else-none : (o : Option Table) → or_else o none ≡ o
or_else-none none = refl
or_else-none (some t) = refl

lookup_last : (n : Text) (ts : List Table) → lookup equal n (tables_by_name [] ts) ≡ last_named n ts
unfolding lookup
lookup_last n ts = lookup-tables_by_name n ts [] ∙ or_else-none (last_named n ts)

fill_key-ok :
    (k k' : ForeignKey) (q : Option Key)
    → fill_key k q ≡ ok k'
    → (p : Key) × (q ≡ some p)
      × (length p.key_columns ≡ length k.foreign_columns)
      × (record k { referenced_columns = p.key_columns } ≡ k')
unfolding fill_key
fill_key-ok k k' none h = cc h
fill_key-ok k k' (some p) h = elim (Bool-cases (length p.key_columns == length k.foreign_columns)) [
  | inl e ↦ (p, refl, (==_iff _ _).0 e, ok-injective (sym (if_true e _ _) ∙ h))
  | inr d ↦ cc (sym (if_false d _ _) ∙ h)
]

primary_of-some :
    (o : Option Table) (p : Key)
    → primary_of o ≡ some p
    → (t : Table) × (o ≡ some t) × (t.primary_key ≡ some p)
primary_of-some (some t) p h = (t, refl, h)
primary_of-some none p h = cc h

Resolved-resolve_key :
    (ts : List Table) (k k' : ForeignKey)
    → Resolved ts k k'
    → resolve_key (tables_by_name [] ts) k ≡ ok k'
unfolding resolve_key fill_key
Resolved-resolve_key ts _ _ (kept k m) = elim (Bool-cases (any_empty k.referenced_columns)) [
  | inl e ↦ absurd (m ((any_empty_iff k.referenced_columns).0 e))
  | inr d ↦ if_false d _ _
]
Resolved-resolve_key ts _ _ (filled k t p m l q n) =
    if_true ((any_empty_iff k.referenced_columns).1 m) _ _
    ∙ ap (λ (o : Option Table). fill_key k (primary_of o)) (lookup_last k.referenced_table ts ∙ l)
    ∙ ap (fill_key k) q
    ∙ if_true ((==_iff _ _).1 n) _ _

resolve_key-Resolved :
    (ts : List Table) (k k' : ForeignKey)
    → resolve_key (tables_by_name [] ts) k ≡ ok k'
    → Resolved ts k k'
unfolding resolve_key
resolve_key-Resolved ts k k' h = elim (Bool-cases (any_empty k.referenced_columns)) [
  | inl e ↦
      let (p, o, n, r) =
        fill_key-ok k k' (primary_of (lookup equal k.referenced_table (tables_by_name [] ts)))
          (sym (if_true e _ _) ∙ h) in
      let (t, l, q) = primary_of-some _ p o in
      subst (Resolved ts k) r (
        filled k t p ((any_empty_iff k.referenced_columns).0 e)
          (sym (lookup_last k.referenced_table ts) ∙ l) q n)
  | inr d ↦
      subst (Resolved ts k) (ok-injective (sym (if_false d _ _) ∙ h))
        (kept k (λ m. cc (sym d ∙ (any_empty_iff k.referenced_columns).1 m)))
]

resolve_key_iff :
    (ts : List Table) (k k' : ForeignKey)
    → (resolve_key (tables_by_name [] ts) k ≡ ok k') ↔ Resolved ts k k'
resolve_key_iff ts k k' = (resolve_key-Resolved ts k k', Resolved-resolve_key ts k k')

resolve_table_iff :
    (ts : List Table) (t t' : Table)
    → (resolve_table (tables_by_name [] ts) t ≡ ok t') ↔ ResolvedTable ts t t'
unfolding resolve_table
resolve_table_iff ts t t' =
    ↔_trans
      (>>=_iff (map_result (resolve_key (tables_by_name [] ts)) t.foreign_keys) _ (λ ks. ok_iff))
      (
        (λ (ks, e, r).
            subst (ResolvedTable ts t) r
              ((map_result_iff _ (Resolved ts) (resolve_key_iff ts) _ _).0 e, refl)),
        λ (ps, r). (
          t'.foreign_keys,
          (map_result_iff _ (Resolved ts) (resolve_key_iff ts) _ _).1 ps,
          sym r,
        ),
      )

-- Resolving succeeds with a list of tables exactly if every foreign key of every table is resolved
-- there, from the primary keys of the tables before, and the tables keep all else: a foreign key that
-- names all the columns that it references stays, and any other needs a last table with the name that
-- it references, with a primary key of as many columns as its own, and takes these.
pub resolve_referenced_columns_iff :
    (ts ts' : List Table)
    → (resolve_referenced_columns ts ≡ ok ts') ↔ Pairs (ResolvedTable ts) ts ts'
unfolding resolve_referenced_columns
resolve_referenced_columns_iff ts ts' =
    map_result_iff (resolve_table (tables_by_name [] ts)) (ResolvedTable ts) (resolve_table_iff ts)
      ts ts'
