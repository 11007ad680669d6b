-- ===== src/Insert/Conflict.antt =====
-- ON CONFLICT and ON DUPLICATE KEY UPDATE of insert.go: the checks, and what is written. The checks
-- read of the query its table's qualifier, its insertable columns and its unique keys.
pub mod Keys
pub mod Accepts
use tiqq.Prelude.{
  ℕ, ◌+◌, Bool, true, false, not, ◌&&◌, ◌||◌, List, [], ◌∷◌, ◌++◌, map, Option, none, some, Text,
  codes, KeySet, has, add, equal, join, length, ◌==◌, if◌then◌else◌, Result, ok, err, errorf, ◌>>=◌,
  ◌>>◌, fail_if,
}
use tiqq.Dialect.{Renderer, name, quote_identifier, placeholder}
use tiqq.Column.{ColumnRef, Assignment, id, column_qualifier, column_name}
use tiqq.Predicate.{Rendered}
use tiqq.Validate.{is_nil}

pub record InsertConflict : Type 0 where
  pub conflict_target : List ColumnRef
  pub do_nothing : Bool
  pub assignments : List Assignment

-- The loop over the conflict target.
unfoldable pub check_target : Text → KeySet → List ColumnRef → Result (Unit {0})
check_target scope seen [] = ok tt
check_target scope seen (c ∷ cs) =
    if not (equal (column_qualifier c) scope)
    then err
        (errorf (codes "tiqq: ON CONFLICT column " ++ (id c ++ codes " is not in query scope")))
    else if has seen (column_name c)
    then err (
        errorf
          (codes "tiqq: ON CONFLICT column " ++ (id c ++ codes " is specified more than once")))
    else check_target scope (column_name c ∷ seen) cs

-- The set of a key's columns: a map counts a repeated column once.
unfoldable pub key_set : List Text → KeySet
key_set [] = []
key_set (k ∷ ks) = add k (key_set ks)

unfoldable pub same_column_set : KeySet → KeySet → Bool
same_column_set [] right = true
same_column_set (k ∷ ks) right = if not (has right k) then false else same_column_set ks right

-- The loop over the unique keys.
unfoldable pub matches_key : List (List Text) → KeySet → Bool
unfolding key_set same_column_set
matches_key [] seen = false
matches_key (k ∷ ks) seen =
    (length (key_set k) == length seen && same_column_set (key_set k) seen) || matches_key ks seen

unfoldable pub check_assigned : Text → KeySet → KeySet → List Assignment → Result (Unit {0})
check_assigned scope insertable assigned [] = ok tt
check_assigned scope insertable assigned (a ∷ xs) =
    if not (equal (column_qualifier a.column) scope)
    then err (
        errorf (
          codes "tiqq: ON CONFLICT assignment column "
          ++ (id a.column ++ codes " is not in query scope")))
    else if not (has insertable (column_name a.column))
    then err (errorf (codes "tiqq: column " ++ (id a.column ++ codes " is not insertable")))
    else if has assigned (column_name a.column)
    then err (
        errorf (
          codes "tiqq: ON CONFLICT assignment column "
          ++ (id a.column ++ codes " is specified more than once")))
    else check_assigned scope insertable (column_name a.column ∷ assigned) xs

-- The checks behind the early return for DO NOTHING with no target.
unfoldable pub check_conflict :
    Renderer → Text → KeySet → List (List Text) → InsertConflict → Result (Unit {0})
unfolding check_target matches_key check_assigned
check_conflict r scope insertable keys c = do
  fail_if (is_nil c.conflict_target && not (equal (name r) (codes "sqlite")))
      (errorf (codes "tiqq: ON CONFLICT DO UPDATE requires a conflict target"))
  check_target scope [] c.conflict_target
  fail_if
      (not (is_nil c.conflict_target) && not (matches_key keys (map column_name c.conflict_target)))
      (errorf (codes "tiqq: ON CONFLICT target does not match a primary key or unique constraint"))
  fail_if (not c.do_nothing && is_nil c.assignments)
      (errorf (codes "tiqq: ON CONFLICT DO UPDATE requires at least one assignment"))
  check_assigned scope insertable [] c.assignments

unfoldable pub validate_conflict :
    Renderer → Text → KeySet → List (List Text) → Option InsertConflict → Result (Unit {0})
unfolding check_conflict
validate_conflict r scope insertable keys none = ok tt
validate_conflict r scope insertable keys (some c) =
    if is_nil c.conflict_target && c.do_nothing
    then ok tt
    else check_conflict r scope insertable keys c

unfoldable pub check_duplicate : Text → KeySet → KeySet → List Assignment → Result (Unit {0})
check_duplicate scope insertable assigned [] = ok tt
check_duplicate scope insertable assigned (a ∷ xs) =
    if not (equal (column_qualifier a.column) scope)
    then err (
        errorf (
          codes "tiqq: ON DUPLICATE KEY assignment column "
          ++ (id a.column ++ codes " is not in query scope")))
    else if not (has insertable (column_name a.column))
    then err (errorf (codes "tiqq: column " ++ (id a.column ++ codes " is not insertable")))
    else if a.excluded
    then err (errorf (codes "tiqq: ON DUPLICATE KEY UPDATE does not accept EXCLUDED assignments"))
    else if has assigned (column_name a.column)
    then err (
        errorf (
          codes "tiqq: ON DUPLICATE KEY assignment column "
          ++ (id a.column ++ codes " is specified more than once")))
    else check_duplicate scope insertable (column_name a.column ∷ assigned) xs

unfoldable pub validate_duplicate_key : Text → KeySet → Option (List Assignment) → Result (Unit {0})
unfolding check_duplicate
validate_duplicate_key scope insertable none = ok tt
validate_duplicate_key scope insertable (some xs) = do
  fail_if (is_nil xs)
      (errorf (codes "tiqq: ON DUPLICATE KEY UPDATE requires at least one assignment"))
  check_duplicate scope insertable [] xs

-- The loop that writes assignments. `taken` tells which take the incoming row's value, and `source`
-- is that row's name with its dot. The flag is `index > 0`.
unfoldable pub render_incoming :
    Renderer → (Assignment → Bool) → Text → Bool → List Assignment → ℕ → Rendered
render_incoming r taken source later [] n = record { text = []; args = []; next = n }
render_incoming r taken source later (a ∷ xs) n =
    let head =
      (if later then codes ", " else [])
      ++ (quote_identifier r (column_name a.column) ++ codes " = ") in
    let same = render_incoming r taken source true xs n in
    let stepped = render_incoming r taken source true xs (n + 1) in
    if taken a
    then record {
      text = head ++ (source ++ (quote_identifier r (column_name a.column) ++ same.text));
      args = same.args;
      next = same.next;
    }
    else record {
      text = head ++ (placeholder r n ++ stepped.text);
      args = a.value ∷ stepped.args;
      next = stepped.next;
    }

abbrev pub is_excluded : Assignment → Bool
is_excluded a = a.excluded

abbrev pub is_inserted : Assignment → Bool
is_inserted a = a.inserted

unfoldable pub render_target : Renderer → List ColumnRef → Text
render_target r [] = []
render_target r (c ∷ cs) =
    codes " ("
    ++ (join (codes ", ") (map (λ d. quote_identifier r (column_name d)) (c ∷ cs)) ++ codes ")")

unfoldable pub render_action : Renderer → Bool → List Assignment → ℕ → Rendered
unfolding render_incoming
render_action r true xs n = record { text = codes " DO NOTHING"; args = []; next = n }
render_action r false xs n =
    let o = render_incoming r is_excluded (codes "EXCLUDED.") false xs n in
    record { text = codes " DO UPDATE SET " ++ o.text; args = o.args; next = o.next }

unfoldable pub render_conflict : Renderer → Option InsertConflict → ℕ → Rendered
unfolding render_target render_action
render_conflict r none n = record { text = []; args = []; next = n }
render_conflict r (some c) n =
    let o = render_action r c.do_nothing c.assignments n in
    record {
      text = codes " ON CONFLICT" ++ (render_target r c.conflict_target ++ o.text);
      args = o.args;
      next = o.next;
    }

-- The name that MySQL gives to the incoming row.
unfoldable pub render_new_alias : Renderer → Option (List Assignment) → Text
render_new_alias r none = []
render_new_alias r (some []) = []
render_new_alias r (some (a ∷ xs)) = codes " AS " ++ quote_identifier r (codes "tiqq_new")

unfoldable pub render_duplicate_key : Renderer → Option (List Assignment) → ℕ → Rendered
unfolding render_incoming
render_duplicate_key r none n = record { text = []; args = []; next = n }
render_duplicate_key r (some []) n = record { text = []; args = []; next = n }
render_duplicate_key r (some (a ∷ xs)) n =
    let source = quote_identifier r (codes "tiqq_new") ++ codes "." in
    let o = render_incoming r is_inserted source false (a ∷ xs) n in
    record { text = codes " ON DUPLICATE KEY UPDATE " ++ o.text; args = o.args; next = o.next }
