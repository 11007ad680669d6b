-- ===== src/Insert/Conflict/Accepts.antt =====
-- About validateConflict and validateDuplicateKey of insert.go: which clauses they accept.
use tiqq.Prelude.{
  Bool, true, false, not, ◌&&◌, List, [], ◌∷◌, map, Option, none, some, Text, codes, KeySet,
  has_iff, Elem, Distinct, Fresh, Fresh-iff, equal, equal_iff, All, if◌then◌else◌, ok, errorf,
  fail_if, fail_if_iff, >>_iff, ↔_trans, ◌≡◌, ◌≢◌, ◌↔◌, ◌⊎◌, inl, inr, refl, arith,
}
use tiqq.Dialect.{Renderer, postgres_renderer, mysql_renderer, sqlite_renderer, name}
use tiqq.Column.{ColumnRef, Assignment, column_qualifier, column_name}
use tiqq.Validate.{is_nil}
use tiqq.Validate.Scope.{is_nil_iff}
use tiqq.Insert.Conflict.{
  InsertConflict, check_target, matches_key, check_assigned, check_conflict, validate_conflict,
  check_duplicate, validate_duplicate_key,
}
use tiqq.Insert.Conflict.Keys.{IsUniqueKey, matches_key_iff}

abbrev pub assigned_names : List Assignment → List Text
assigned_names = map (λ a. column_name a.column)

-- An assignment to an insertable column of the table.
abbrev pub IsAssignable : Text → KeySet → Assignment → Type 0
IsAssignable scope insertable a =
    (column_qualifier a.column ≡ scope) × Elem (column_name a.column) insertable

-- A conflict clause with a target, or on SQLite with none.
pub record IsConflict (r : Renderer) (scope : Text) (insertable : KeySet) (keys : List (List Text))
    (c : InsertConflict) : Type 0 where
  pub target_given : (c.conflict_target ≢ []) ⊎ (r ≡ sqlite_renderer)
  pub in_scope : All (λ d. column_qualifier d ≡ scope) c.conflict_target
  pub target_once : Distinct (map column_name c.conflict_target)
  pub unique : (c.conflict_target ≢ []) → IsUniqueKey keys (map column_name c.conflict_target)
  pub some_action : (c.do_nothing ≡ true) ⊎ (c.assignments ≢ [])
  pub assignable : All (IsAssignable scope insertable) c.assignments
  pub assigned_once : Distinct (assigned_names c.assignments)

module _ (r : Renderer) (scope : Text) (insertable : KeySet) (keys : List (List Text)) where
  -- No clause, DO NOTHING with no target, or a proper clause.
  abbrev pub AcceptsConflict : Option InsertConflict → Type 0
  AcceptsConflict none = Unit
  AcceptsConflict (some c) =
      ((c.conflict_target ≡ []) × (c.do_nothing ≡ true)) ⊎ IsConflict r scope insertable keys c

  check_target_iff :
      (seen : KeySet) (cs : List ColumnRef)
      → (check_target scope seen cs ≡ ok tt)
        ↔ (All (λ d. column_qualifier d ≡ scope) cs × Fresh seen (map column_name cs))
  unfolding check_target
  check_target_iff seen [] = ((λ h. (tt, tt)), λ h. refl)
  check_target_iff seen (c ∷ cs) = ground (
    arith,
    equal_iff (column_qualifier c) scope,
    has_iff seen (column_name c),
    check_target_iff (column_name c ∷ seen) cs,
  )

  check_assigned_iff :
      (seen : KeySet) (xs : List Assignment)
      → (check_assigned scope insertable seen xs ≡ ok tt)
        ↔ (All (IsAssignable scope insertable) xs × Fresh seen (assigned_names xs))
  unfolding check_assigned
  check_assigned_iff seen [] = ((λ h. (tt, tt)), λ h. refl)
  check_assigned_iff seen (a ∷ xs) = ground (
    arith,
    equal_iff (column_qualifier a.column) scope,
    has_iff insertable (column_name a.column),
    has_iff seen (column_name a.column),
    check_assigned_iff (column_name a.column ∷ seen) xs,
  )

  sqlite_iff : (equal (name r) (codes "sqlite") ≡ true) ↔ (r ≡ sqlite_renderer)
  sqlite_iff = by_cases r
    where
      by_cases : (x : Renderer) → (equal (name x) (codes "sqlite") ≡ true) ↔ (x ≡ sqlite_renderer)
      by_cases postgres_renderer = unfold name codes equal in ((λ h. cc), λ h. cc)
      by_cases mysql_renderer = unfold name codes equal in ((λ h. cc), λ h. cc)
      by_cases sqlite_renderer = unfold name codes equal in ((λ h. refl), λ h. refl)

  nil_true_iff {ℓ} : {A : Type ℓ} (xs : List A) → (is_nil xs ≡ true) ↔ (xs ≡ [])
  nil_true_iff [] = ((λ h. refl), λ h. refl)
  nil_true_iff (x ∷ xs) = ((λ h. cc), λ h. cc)

  given_iff :
      (cs : List ColumnRef) (b : Bool) {Q : Type 0}
      → (b ≡ true) ↔ Q
      → ((is_nil cs && not b) ≡ false) ↔ ((cs ≢ []) ⊎ Q)
  given_iff [] true q = ((λ h. inr (q.0 refl)), λ h. refl)
  given_iff [] false q = ((λ h. cc), elim [ inl n ↦ absurd (n refl) | inr x ↦ cc (q.1 x) ])
  given_iff (c ∷ cs) b q = ((λ h. inl (λ e. cc)), λ h. refl)

  unique_iff :
      (cs : List ColumnRef)
      → Distinct (map column_name cs)
      → ((not (is_nil cs) && not (matches_key keys (map column_name cs))) ≡ false)
        ↔ ((cs ≢ []) → IsUniqueKey keys (map column_name cs))
  unique_iff [] d = ((λ h n. absurd (n refl)), λ h. refl)
  unique_iff (c ∷ cs) d =
      let i = matches_key_iff keys (map column_name (c ∷ cs)) d in
      negated (matches_key keys (map column_name (c ∷ cs))) i
    where
      negated : {Q : Type 0} (b : Bool) → (b ≡ true) ↔ Q → (not b ≡ false) ↔ ((c ∷ cs ≢ []) → Q)
      negated true q = ((λ h n. q.0 refl), λ h. refl)
      negated false q = ((λ h. cc), λ h. cc (q.1 (h (λ e. cc))))

  action_iff :
      (b : Bool) (xs : List Assignment) → ((not b && is_nil xs) ≡ false) ↔ ((b ≡ true) ⊎ (xs ≢ []))
  action_iff true xs = ((λ h. inl refl), λ h. refl)
  action_iff false xs =
      let i = is_nil_iff xs in ((λ h. inr (i.0 h)), elim [ inl e ↦ cc e | inr n ↦ i.1 n ])

  check_conflict_iff :
      (c : InsertConflict)
      → (check_conflict r scope insertable keys c ≡ ok tt) ↔ IsConflict r scope insertable keys c
  unfolding check_conflict
  check_conflict_iff c =
      let target = c.conflict_target in
      let i =
        >>_iff
          (fail_if (is_nil target && not (equal (name r) (codes "sqlite")))
            (errorf (codes "tiqq: ON CONFLICT DO UPDATE requires a conflict target")))
          _ (↔_trans (fail_if_iff _ _) (given_iff target _ sqlite_iff))
          (>>_iff _ _ (check_target_iff [] target) (
            >>_iff
              (fail_if (not (is_nil target) && not (matches_key keys (map column_name target))) (
                errorf (
                  codes
                    "tiqq: ON CONFLICT target does not match a primary key or unique constraint")))
              _ (fail_if_iff _ _)
              (>>_iff
                (fail_if (not c.do_nothing && is_nil c.assignments)
                  (errorf (codes "tiqq: ON CONFLICT DO UPDATE requires at least one assignment")))
                _ (↔_trans (fail_if_iff _ _) (action_iff c.do_nothing c.assignments))
                (check_assigned_iff [] c.assignments)))) in
      let once = Fresh-iff (map column_name target) in
      let once' = Fresh-iff (assigned_names c.assignments) in
      (
        (λ h.
            let (given, ((scoped, fresh), (unique, (action, (assignable, fresh'))))) = i.0 h in
            record {
              target_given = given;
              in_scope = scoped;
              target_once = once.0 fresh;
              unique = (unique_iff target (once.0 fresh)).0 unique;
              some_action = action;
              assignable = assignable;
              assigned_once = once'.0 fresh';
            }),
        λ v. i.1 (
          v.target_given,
          (
            (v.in_scope, once.1 v.target_once),
            (
              (unique_iff target v.target_once).1 v.unique,
              (v.some_action, (v.assignable, once'.1 v.assigned_once)),
            ),
          ),
        ),
      )

  -- `validateConflict` accepts exactly: no clause; DO NOTHING with no target; or a clause that has a
  -- target (on SQLite it may have none) of different columns of the table, whose set is a unique key,
  -- that has an action, and whose assignments set different insertable columns of the table.
  pub validate_conflict_iff :
      (o : Option InsertConflict)
      → (validate_conflict r scope insertable keys o ≡ ok tt) ↔ AcceptsConflict o
  unfolding validate_conflict
  validate_conflict_iff none = ((λ h. tt), λ h. refl)
  validate_conflict_iff (some c) =
      let i = check_conflict_iff c in
      let n = nil_true_iff c.conflict_target in early (is_nil c.conflict_target) c.do_nothing n i
    where
      early :
          {P Q : Type 0} (a b : Bool)
          → (a ≡ true) ↔ P
          → (check_conflict r scope insertable keys c ≡ ok tt) ↔ Q
          → ((if a && b then ok tt else check_conflict r scope insertable keys c) ≡ ok tt)
            ↔ ((P × (b ≡ true)) ⊎ Q)
      early true true p q = ((λ h. inl (p.0 refl, refl)), λ h. refl)
      early true false p q = ((λ h. inr (q.0 h)), elim [ inl e ↦ cc (e.1) | inr x ↦ q.1 x ])
      early false b p q = ((λ h. inr (q.0 h)), elim [ inl e ↦ cc (p.1 e.0) | inr x ↦ q.1 x ])

-- ON DUPLICATE KEY UPDATE with proper assignments, none of them EXCLUDED.
pub record IsDuplicate (scope : Text) (insertable : KeySet) (xs : List Assignment) : Type 0 where
  pub some_assignment : xs ≢ []
  pub assignable : All (λ a. IsAssignable scope insertable a × (a.excluded ≡ false)) xs
  pub assigned_once : Distinct (assigned_names xs)

abbrev pub AcceptsDuplicate : Text → KeySet → Option (List Assignment) → Type 0
AcceptsDuplicate scope insertable none = Unit
AcceptsDuplicate scope insertable (some xs) = IsDuplicate scope insertable xs

check_duplicate_iff :
    (scope : Text) (insertable seen : KeySet) (xs : List Assignment)
    → (check_duplicate scope insertable seen xs ≡ ok tt) ↔ (
        All (λ a. IsAssignable scope insertable a × (a.excluded ≡ false)) xs
        × Fresh seen (assigned_names xs))
unfolding check_duplicate
check_duplicate_iff scope insertable seen [] = ((λ h. (tt, tt)), λ h. refl)
check_duplicate_iff scope insertable seen (a ∷ xs) = ground (
  arith,
  equal_iff (column_qualifier a.column) scope,
  has_iff insertable (column_name a.column),
  has_iff seen (column_name a.column),
  check_duplicate_iff scope insertable (column_name a.column ∷ seen) xs,
)

-- `validateDuplicateKey` accepts exactly: no clause, or at least one assignment, all of them to
-- different insertable columns of the table, and none with an EXCLUDED value.
pub validate_duplicate_key_iff :
    (scope : Text) (insertable : KeySet) (o : Option (List Assignment))
    → (validate_duplicate_key scope insertable o ≡ ok tt) ↔ AcceptsDuplicate scope insertable o
unfolding validate_duplicate_key
validate_duplicate_key_iff scope insertable none = ((λ h. tt), λ h. refl)
validate_duplicate_key_iff scope insertable (some xs) =
    let i =
      >>_iff
        (fail_if (is_nil xs)
          (errorf (codes "tiqq: ON DUPLICATE KEY UPDATE requires at least one assignment")))
        _ (↔_trans (fail_if_iff _ _) (is_nil_iff xs))
        (check_duplicate_iff scope insertable [] xs) in
    let f = Fresh-iff (assigned_names xs) in
    (
      (λ h.
          let (n, (a, o)) = i.0 h in
          record { some_assignment = n; assignable = a; assigned_once = f.0 o }),
      λ v. i.1 (v.some_assignment, (v.assignable, f.1 v.assigned_once)),
    )
