-- ===== src/Source/Reached.antt =====
-- About the sources that the joins of query.go reach.
use tiqq.Prelude.{List, [], ◌∷◌, ◌++◌, map, ok, ok-injective, ◌≡◌, refl, sym, ap, subst, ◌∙◌}
use tiqq.Predicate.{Predicate}
use tiqq.Source.{
  TableInfo, TableSource, JoinKind, JoinClause, Source, JoinSourceInfo, Joined, table_source_of,
  table_join_source, with_join, join_left, join_inner, join_right, join_full, join_cross,
  replace_last, joined_source, on_joins, on,
}

-- The sources of tables and of joined tables, with any column views.
pub data Reached : Source → Type 1 where
  from_table : {C NC : Type 0} (t : TableInfo C NC) → Reached (table_join_source t).from_source
  by_left :
      {C NC RC RNC : Type 0} (l : JoinSourceInfo C NC) (r : TableInfo RC RNC)
      → Reached l.from_source
      → Reached (join_left l r).source
  by_inner :
      {C NC RC RNC : Type 0} (l : JoinSourceInfo C NC) (r : TableInfo RC RNC)
      → Reached l.from_source
      → Reached (join_inner l r).source
  by_right :
      {C NC RC RNC : Type 0} (l : JoinSourceInfo C NC) (r : TableInfo RC RNC)
      → Reached l.from_source
      → Reached (join_right l r).source
  by_full :
      {C NC RC RNC : Type 0} (l : JoinSourceInfo C NC) (r : TableInfo RC RNC)
      → Reached l.from_source
      → Reached (join_full l r).source
  by_cross :
      {C NC RC RNC : Type 0} (l : JoinSourceInfo C NC) (r : TableInfo RC RNC)
      → Reached l.from_source
      → Reached (join_cross l r).source
  by_on :
      {L R NL NR : Type 0} (j j' : Joined L R NL NR) (ps : List Predicate)
      → Reached j.source
      → on j ps ≡ ok j'
      → Reached j'.source
  joined_again :
      {L R NL NR : Type 0} (j : Joined L R NL NR)
      → Reached j.source
      → Reached (joined_source j).from_source

abbrev right_tables : List JoinClause → List TableSource
right_tables js = map (λ (j : JoinClause). j.right_table) js

-- The tables are a first one and those that the joins add, in their order.
abbrev pub IsChain : Source → Type 0
IsChain s = (base : TableSource) × (s.tables ≡ base ∷ right_tables s.joins)

right_tables-append :
    (js : List JoinClause) (j : JoinClause)
    → right_tables (js ++ j ∷ []) ≡ right_tables js ++ j.right_table ∷ []
right_tables-append [] j = refl
right_tables-append (k ∷ js) j = ap (λ ts. k.right_table ∷ ts) (right_tables-append js j)

IsChain-with_join :
    (s : Source) (k : JoinKind) (t : TableSource) → IsChain s → IsChain (with_join s k t)
unfolding with_join
IsChain-with_join s k t (base, e) =
    (base, ap (λ ts. ts ++ t ∷ []) e ∙ ap (λ ts. base ∷ ts) (sym (right_tables-append s.joins _)))

right_tables-replace_last :
    (ps : List Predicate) (js : List JoinClause)
    → right_tables (replace_last ps js) ≡ right_tables js
unfolding replace_last
right_tables-replace_last ps [] = refl
right_tables-replace_last ps (j ∷ []) = refl
right_tables-replace_last ps (j ∷ k ∷ js) =
    ap (λ ts. j.right_table ∷ ts) (right_tables-replace_last ps (k ∷ js))

module _ {L R NL NR : Type 0} where
  on_joins-source :
      (ks : List JoinClause) (j j' : Joined L R NL NR) (ps : List Predicate)
      → on_joins ks j ps ≡ ok j'
      → record { tables = j.source.tables; joins = replace_last ps ks } ≡ j'.source
  unfolding on_joins
  on_joins-source [] j j' ps h = cc h
  on_joins-source (k ∷ ks) j j' ps h = ap (λ (i : Joined L R NL NR). i.source) (ok-injective h)

  IsChain-on :
      (j j' : Joined L R NL NR) (ps : List Predicate)
      → on j ps ≡ ok j'
      → IsChain j.source
      → IsChain j'.source
  unfolding on
  IsChain-on j j' ps h (base, e) =
      subst IsChain (on_joins-source j.source.joins j j' ps h)
        (base, e ∙ ap (λ ts. base ∷ ts) (sym (right_tables-replace_last ps j.source.joins)))

-- The tables of every source that joins and ON reach are a first table and, behind it, the tables that
-- its joins add, in their order.
pub Reached-IsChain : (s : Source) → Reached s → IsChain s
unfolding table_join_source join_left join_inner join_right join_full join_cross joined_source
Reached-IsChain _ (from_table t) = (table_source_of t, refl)
Reached-IsChain _ (by_left l r h) =
    IsChain-with_join l.from_source JoinKind.left_join (table_source_of r) (Reached-IsChain _ h)
Reached-IsChain _ (by_inner l r h) =
    IsChain-with_join l.from_source JoinKind.inner_join (table_source_of r) (Reached-IsChain _ h)
Reached-IsChain _ (by_right l r h) =
    IsChain-with_join l.from_source JoinKind.right_join (table_source_of r) (Reached-IsChain _ h)
Reached-IsChain _ (by_full l r h) =
    IsChain-with_join l.from_source JoinKind.full_join (table_source_of r) (Reached-IsChain _ h)
Reached-IsChain _ (by_cross l r h) =
    IsChain-with_join l.from_source JoinKind.cross_join (table_source_of r) (Reached-IsChain _ h)
Reached-IsChain _ (by_on j j' ps h e) = IsChain-on j j' ps e (Reached-IsChain _ h)
Reached-IsChain _ (joined_again j h) = Reached-IsChain j.source h
