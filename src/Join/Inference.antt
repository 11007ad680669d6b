-- ===== src/Join/Inference.antt =====
-- About inferJoinConditions of query.go: the ON clause that foreign keys imply.
use tiqq.Prelude.{
  false, List, [], ◌∷◌, ◌++◌, Text, codes, KeySet, has, has_iff, Elem, equal, equal_iff, All,
  All-append, length, Bool-cases, Result, ok, err, errorf, panic, ↔_trans, ◌∙◌, ok-injective, ◌≡◌,
  ◌≢◌, ◌↔◌, inl, inr, refl, subst, sym, ap, arith,
}
use tiqq.Dialect.{qualifier}
use tiqq.Predicate.{Predicate, predicate_columns}
use tiqq.Predicate.Params.{words, HasKeywords, column_words}
use tiqq.Validate.Scope.{Fits, is_nil_iff}
use tiqq.Source.{ForeignKey, TableSource}
use tiqq.Join.{
  key_equations, does_not_relate, key_groups, relation_predicate_groups, candidates, only_candidate,
  infer_join_conditions,
}

-- An ON clause that may be written: it has a condition, and each fits the scope and the grammar.
pub record IsCondition (allowed : KeySet) (ps : List Predicate) : Type 0 where
  pub some_condition : ps ≢ []
  pub fits : All (Fits allowed) ps
  pub keywords : All (λ p. HasKeywords (words p)) ps

-- A foreign key that relates its table to the given one: it names it, and pairs up columns.
pub record Relates (k : ForeignKey) (parent : TableSource) : Type 0 where
  pub references : k.referenced_table ≡ parent.ref.table_name
  pub some_column : k.columns ≢ []
  pub paired : length k.columns ≡ length k.referenced_columns

Relates-iff :
    (k : ForeignKey) (parent : TableSource) → (does_not_relate k parent ≡ false) ↔ Relates k parent
Relates-iff k parent =
    ground (arith, equal_iff k.referenced_table parent.ref.table_name, is_nil_iff k.columns)

module _ (allowed : KeySet) (child parent : TableSource)
    (child_allowed : Elem (qualifier child.ref) allowed)
    (parent_allowed : Elem (qualifier parent.ref) allowed) where
  key_equations-Fits :
      (cs ds : List Text)
      → All (Fits allowed) (key_equations child parent cs ds)
        × All (λ p. HasKeywords (words p)) (key_equations child parent cs ds)
  unfolding key_equations predicate_columns words column_words codes
  key_equations-Fits (c ∷ cs) (d ∷ ds) =
      let (f, k) = key_equations-Fits cs ds in
      (
        (
          record {
            in_scope = (child_allowed, (parent_allowed, tt));
            no_aggregate = (refl, (refl, tt));
          },
          f,
        ),
        ((refl, tt), k),
      )
  key_equations-Fits [] ds = (tt, tt)
  key_equations-Fits (c ∷ cs) [] = (tt, tt)

  key_equations-IsCondition :
      (k : ForeignKey)
      → Relates k parent
      → IsCondition allowed (key_equations child parent k.columns k.referenced_columns)
  key_equations-IsCondition k h = record {
    some_condition = nonempty k.columns k.referenced_columns h.some_column h.paired;
    fits = (key_equations-Fits k.columns k.referenced_columns).0;
    keywords = (key_equations-Fits k.columns k.referenced_columns).1;
  }
    where
      nonempty :
          (cs ds : List Text)
          → cs ≢ []
          → length cs ≡ length ds
          → key_equations child parent cs ds ≢ []
      nonempty [] ds h e = absurd (h refl)
      nonempty (c ∷ cs) [] h e = absurd (omega arith)
      nonempty (c ∷ cs) (d ∷ ds) h e = unfold key_equations in λ g. cc

  key_groups-IsCondition :
      (ks : List ForeignKey) → All (IsCondition allowed) (key_groups child parent ks)
  unfolding key_groups
  key_groups-IsCondition [] = tt
  key_groups-IsCondition (k ∷ ks) = elim (Bool-cases (does_not_relate k parent)) [
    | inl skip ↦ rw skip (key_groups-IsCondition ks)
    | inr taken ↦
        rw taken
          (key_equations-IsCondition k ((Relates-iff k parent).0 taken), key_groups-IsCondition ks)
  ]

module _ (visible : KeySet) (right : TableSource) where
  abbrev scope : KeySet
  scope = qualifier right.ref ∷ visible

  candidates-IsCondition :
      (ts : List TableSource) → All (IsCondition scope) (candidates ts visible right)
  unfolding candidates relation_predicate_groups
  candidates-IsCondition [] = tt
  candidates-IsCondition (t ∷ ts) = elim (Bool-cases (has visible (qualifier t.ref))) [
    | inl seen ↦
        let m = (has_iff visible (qualifier t.ref)).0 seen in
        rw seen (
          All-append _ (key_groups t right t.foreign_keys) _
            (key_groups-IsCondition scope t right (inr m) (inl refl) t.foreign_keys)
            (All-append _ (key_groups right t right.foreign_keys) _
              (key_groups-IsCondition scope right t (inl refl) (inr m) right.foreign_keys)
              (candidates-IsCondition ts)))
    | inr hidden ↦ rw hidden (candidates-IsCondition ts)
  ]

  -- If conditions are inferred, there is at least one, each mentions only plain columns of visible
  -- tables and of the joined one, and its operators are plain SQL words.
  pub infer_join_conditions-IsCondition :
      (ts : List TableSource) (ps : List Predicate)
      → infer_join_conditions ts visible right ≡ ok ps
      → IsCondition (qualifier right.ref ∷ visible) ps
  unfolding infer_join_conditions
  infer_join_conditions-IsCondition ts ps h =
      go (candidates ts visible right) (candidates-IsCondition ts) h
    where
      go :
          (gs : List (List Predicate))
          → All (IsCondition scope) gs
          → only_candidate gs ≡ ok ps
          → IsCondition scope ps
      go [] a e = unfold only_candidate in cc e
      go (g ∷ []) a e = unfold only_candidate in subst (IsCondition scope) (ok-injective e) a.0
      go (g ∷ k ∷ gs) a e = unfold only_candidate in cc e

-- No foreign key relates two tables, in either direction.
abbrev pub AreUnrelated : TableSource → TableSource → Type 0
AreUnrelated t u = All (λ k. ¬ Relates k u) t.foreign_keys × All (λ k. ¬ Relates k t) u.foreign_keys

key_groups-nil_iff :
    (child parent : TableSource) (ks : List ForeignKey)
    → (key_groups child parent ks ≡ []) ↔ All (λ k. ¬ Relates k parent) ks
unfolding key_groups
key_groups-nil_iff child parent [] = ((λ h. tt), λ h. refl)
key_groups-nil_iff child parent (k ∷ ks) = elim (Bool-cases (does_not_relate k parent)) [
  | inl skip ↦ rw skip (
    (λ h. (
      (λ m. cc (sym skip ∙ (Relates-iff k parent).1 m)),
      (key_groups-nil_iff child parent ks).0 h,
    )),
    λ h. (key_groups-nil_iff child parent ks).1 h.1,
  )
  | inr taken ↦ rw taken ((λ h. cc), λ h. absurd (h.0 ((Relates-iff k parent).0 taken)))
]

append-eq-nil_iff {ℓ} : {A : Type ℓ} (xs ys : List A) → (xs ++ ys ≡ []) ↔ ((xs ≡ []) × (ys ≡ []))
append-eq-nil_iff [] ys = ((λ h. (refl, h)), λ h. h.1)
append-eq-nil_iff (x ∷ xs) ys = ((λ h. cc), λ h. cc (h.0))

abbrev pub NoKey : KeySet → TableSource → List TableSource → Type 0
NoKey visible right = All (λ t. Elem (qualifier t.ref) visible → AreUnrelated t right)

error_text : Result (List Predicate) → Text
error_text (ok ps) = []
error_text (err (errorf e)) = e
error_text (err (panic e)) = e

abbrev none_message : Text
none_message = codes "tiqq: JOIN requires ON because no foreign key matches"

abbrev many_message : Text
many_message = codes "tiqq: JOIN requires ON because multiple foreign keys match"

texts_differ : equal many_message none_message ≡ false
unfolding codes equal
texts_differ = refl

messages_differ :
    ◌≢◌ {A = Result (List Predicate)} (err (errorf many_message)) (err (errorf none_message))
messages_differ h = cc (
    sym texts_differ
    ∙ (equal_iff many_message none_message).1 (unfold error_text in ap error_text h))

module _ (visible : KeySet) (right : TableSource) where
  candidates-nil_iff :
      (ts : List TableSource) → (candidates ts visible right ≡ []) ↔ NoKey visible right ts
  unfolding candidates relation_predicate_groups
  candidates-nil_iff [] = ((λ h. tt), λ h. refl)
  candidates-nil_iff (t ∷ ts) =
      let rest = candidates-nil_iff ts in
      let forth = key_groups-nil_iff t right t.foreign_keys in
      let back = key_groups-nil_iff right t right.foreign_keys in
      elim (Bool-cases (has visible (qualifier t.ref))) [
        | inl seen ↦ rw seen (
          (λ h.
              let (a, bc) = (append-eq-nil_iff (key_groups t right t.foreign_keys) _).0 h in
              let (b, c) = (append-eq-nil_iff (key_groups right t right.foreign_keys) _).0 bc in
              ((λ _. (forth.0 a, back.0 b)), rest.0 c)),
          λ (u, c).
              let (a, b) = u ((has_iff visible (qualifier t.ref)).0 seen) in
              (append-eq-nil_iff (key_groups t right t.foreign_keys) _).1 (
                forth.1 a,
                (append-eq-nil_iff (key_groups right t right.foreign_keys) _).1
                    (back.1 b, rest.1 c),
              ),
        )
        | inr hidden ↦ rw hidden (
          (λ h. ((λ m. cc (sym hidden ∙ (has_iff visible (qualifier t.ref)).1 m)), rest.0 h)),
          λ h. rest.1 h.1,
        )
      ]

  -- The inference reports that no foreign key matches exactly when no foreign key relates the joined
  -- table to a visible one, in either direction.
  pub infer_join_conditions-none_iff :
      (ts : List TableSource)
      → (infer_join_conditions ts visible right
          ≡ err (errorf (codes "tiqq: JOIN requires ON because no foreign key matches")))
        ↔ NoKey visible right ts
  unfolding infer_join_conditions
  infer_join_conditions-none_iff ts =
      ↔_trans (only_candidate_none (candidates ts visible right)) (candidates-nil_iff ts)
    where
      only_candidate_none :
          (gs : List (List Predicate))
          → (only_candidate gs
              ≡ err (errorf (codes "tiqq: JOIN requires ON because no foreign key matches")))
            ↔ (gs ≡ [])
      only_candidate_none [] = ((λ h. refl), λ h. unfold only_candidate in refl)
      only_candidate_none (g ∷ []) = ((λ h. unfold only_candidate in cc h), λ h. cc)
      only_candidate_none (g ∷ k ∷ gs) =
          ((λ h. absurd (messages_differ (unfold only_candidate in h))), λ h. cc)
