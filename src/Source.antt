-- ===== src/Source.antt =====
-- The sources of a SELECT in query.go: table metadata, and typed trees of joins. The column views are
-- type parameters, as in the source.
pub mod Reached
use tiqq.Prelude.{List, [], ◌∷◌, ◌++◌, Text, codes, Result, ok, err, panic}
use tiqq.Dialect.{TableRef}
use tiqq.Predicate.{Predicate}

pub record ForeignKey : Type 0 where
  pub columns : List Text
  pub referenced_table : Text
  pub referenced_columns : List Text

pub record TableInfo {ℓ κ} (C : Type ℓ) (NC : Type κ) : Type (ℓ ⊔ κ) where
  pub info_ref : TableRef
  pub required : C
  pub nullable : NC
  pub info_keys : List ForeignKey

pub record TableSource : Type 0 where
  pub ref : TableRef
  pub foreign_keys : List ForeignKey

-- The kinds of joins, by the words that `kind` holds.
pub data JoinKind : Type 0 where
  inner_join left_join right_join full_join cross_join : JoinKind

unfoldable pub kind_text : JoinKind → Text
kind_text inner_join = codes "INNER JOIN"
kind_text left_join = codes "LEFT JOIN"
kind_text right_join = codes "RIGHT JOIN"
kind_text full_join = codes "FULL JOIN"
kind_text cross_join = codes "CROSS JOIN"

pub record JoinClause : Type 0 where
  pub kind : JoinKind
  pub right_table : TableSource
  pub conditions : List Predicate

pub record Source : Type 0 where
  pub tables : List TableSource
  pub joins : List JoinClause

pub record JoinSourceInfo {ℓ κ} (C : Type ℓ) (NC : Type κ) : Type (ℓ ⊔ κ) where
  pub view : C
  pub nullable_view : NC
  pub from_source : Source

pub record Joined {ℓ κ μ ν} (L : Type ℓ) (R : Type κ) (NL : Type μ) (NR : Type ν)
    : Type (ℓ ⊔ κ ⊔ μ ⊔ ν) where
  pub left : L
  pub right : R
  pub nullable_left : NL
  pub nullable_right : NR
  pub source : Source

unfoldable pub table_source_of {ℓ κ} : {C : Type ℓ} {NC : Type κ} → TableInfo C NC → TableSource
table_source_of info = record { ref = info.info_ref; foreign_keys = info.info_keys }

unfoldable pub table_join_source {ℓ κ} :
    {C : Type ℓ} {NC : Type κ} → TableInfo C NC → JoinSourceInfo C NC
unfolding table_source_of
table_join_source t = record {
  view = t.required;
  nullable_view = t.nullable;
  from_source = record { tables = table_source_of t ∷ []; joins = [] };
}

unfoldable pub with_join : Source → JoinKind → TableSource → Source
with_join s k t = record {
  tables = s.tables ++ t ∷ [];
  joins = s.joins ++ record { kind = k; right_table = t; conditions = [] } ∷ [];
}

module _ {ℓ κ μ ν} {LC : Type ℓ} {LNC : Type κ} {RC : Type μ} {RNC : Type ν} where
  unfoldable pub join_left : JoinSourceInfo LC LNC → TableInfo RC RNC → Joined LC RNC LNC RNC
  unfolding with_join table_source_of
  join_left l r = record {
    left = l.view;
    right = r.nullable;
    nullable_left = l.nullable_view;
    nullable_right = r.nullable;
    source = with_join l.from_source left_join (table_source_of r);
  }

  unfoldable pub join_inner : JoinSourceInfo LC LNC → TableInfo RC RNC → Joined LC RC LNC RNC
  unfolding with_join table_source_of
  join_inner l r = record {
    left = l.view;
    right = r.required;
    nullable_left = l.nullable_view;
    nullable_right = r.nullable;
    source = with_join l.from_source inner_join (table_source_of r);
  }

  unfoldable pub join_right : JoinSourceInfo LC LNC → TableInfo RC RNC → Joined LNC RC LNC RNC
  unfolding with_join table_source_of
  join_right l r = record {
    left = l.nullable_view;
    right = r.required;
    nullable_left = l.nullable_view;
    nullable_right = r.nullable;
    source = with_join l.from_source right_join (table_source_of r);
  }

  unfoldable pub join_full : JoinSourceInfo LC LNC → TableInfo RC RNC → Joined LNC RNC LNC RNC
  unfolding with_join table_source_of
  join_full l r = record {
    left = l.nullable_view;
    right = r.nullable;
    nullable_left = l.nullable_view;
    nullable_right = r.nullable;
    source = with_join l.from_source full_join (table_source_of r);
  }

  unfoldable pub join_cross : JoinSourceInfo LC LNC → TableInfo RC RNC → Joined LC RC LNC RNC
  unfolding with_join table_source_of
  join_cross l r = record {
    left = l.view;
    right = r.required;
    nullable_left = l.nullable_view;
    nullable_right = r.nullable;
    source = with_join l.from_source cross_join (table_source_of r);
  }

-- `joins[len(joins)-1].conditions = conditions`, on a copy.
unfoldable pub replace_last : List Predicate → List JoinClause → List JoinClause
replace_last ps [] = []
replace_last ps (j ∷ []) = record j { conditions = ps } ∷ []
replace_last ps (j ∷ k ∷ js) = j ∷ replace_last ps (k ∷ js)

module _ {ℓ κ μ ν} {L : Type ℓ} {R : Type κ} {NL : Type μ} {NR : Type ν} where
  unfoldable pub joined_source :
      Joined L R NL NR → JoinSourceInfo (Joined L R NL NR) (Joined NL NR NL NR)
  joined_source j = record {
    view = j;
    nullable_view = record {
      left = j.nullable_left;
      right = j.nullable_right;
      nullable_left = j.nullable_left;
      nullable_right = j.nullable_right;
      source = j.source;
    };
    from_source = j.source;
  }

  unfoldable pub on_joins :
      List JoinClause → Joined L R NL NR → List Predicate → Result (Joined L R NL NR)
  unfolding replace_last
  on_joins [] j ps = err (panic (codes "tiqq: ON requires a JOIN"))
  on_joins (k ∷ ks) j ps =
      ok (record j {
        source = record { tables = j.source.tables; joins = replace_last ps (k ∷ ks) };
      })

  -- `Joined.On`
  unfoldable pub on : Joined L R NL NR → List Predicate → Result (Joined L R NL NR)
  unfolding on_joins
  on j ps = on_joins j.source.joins j ps
