-- ===== src/Insert/Conflict/Keys.antt =====
-- About the loop of validateConflict in insert.go that compares a conflict target with the unique keys.
use tiqq.Prelude.{
  suc, ◌≤◌, Bool, true, ◌&&◌, ◌||◌, List, [], ◌∷◌, Text, KeySet, has, has_iff, Elem, Distinct,
  equal, equal_iff, length, ◌==◌, Bool-cases, if◌then◌else◌, ◌≡◌, ◌≢◌, ◌↔◌, ◌⊎◌, inl, inr, refl,
  subst, sym, ◌∙◌, arith,
}
use tiqq.Insert.Conflict.{key_set, same_column_set, matches_key}

abbrev pub Includes : KeySet → KeySet → Type 0
Includes xs ys = (k : Text) → Elem k xs → Elem k ys

-- Two lists with the same columns, in any order and however often.
abbrev pub SameColumns : List Text → List Text → Type 0
SameColumns xs ys = Includes xs ys × Includes ys xs

-- Some key has the columns.
abbrev pub IsUniqueKey : List (List Text) → List Text → Type 0
IsUniqueKey [] cs = ⊥
IsUniqueKey (k ∷ ks) cs = SameColumns k cs ⊎ IsUniqueKey ks cs

remove : Text → KeySet → KeySet
remove x [] = []
remove x (y ∷ ys) = if equal y x then ys else y ∷ remove x ys

length-remove : (x : Text) (ys : KeySet) → Elem x ys → length ys ≡ suc (length (remove x ys))
unfolding remove
length-remove x [] m = absurd m
length-remove x (y ∷ ys) m = ground (arith, equal_iff y x, length-remove x ys)

Elem-remove : (x k : Text) (ys : KeySet) → Elem k ys → x ≢ k → Elem k (remove x ys)
unfolding remove
Elem-remove x k [] m n = m
Elem-remove x k (y ∷ ys) m n = elim (Bool-cases (equal y x)) [
  | inl same ↦
      rw same (elim m [ inl e ↦ absurd (n (sym ((equal_iff y x).0 same) ∙ e)) | inr later ↦ later ])
  | inr differs ↦
      rw differs (elim m [ inl e ↦ inl e | inr later ↦ inr (Elem-remove x k ys later n) ])
]

-- A set is no larger than one that includes it.
Includes-length : (xs ys : KeySet) → Distinct xs → Includes xs ys → length xs ≤ length ys
Includes-length [] ys d h = omega arith
Includes-length (x ∷ xs) ys (n, d) h = omega (
  arith,
  length-remove x ys (h x (inl refl)),
  Includes-length xs (remove x ys) d
      (λ k m. Elem-remove x k ys (h k (inr m)) (λ e. n (subst (λ z. Elem z xs) (sym e) m))),
)

-- An inclusion of sets of one size goes both ways.
Includes-back :
    (xs ys : KeySet) → Distinct xs → length xs ≡ length ys → Includes xs ys → Includes ys xs
Includes-back xs ys d e h k m = elim (Bool-cases (has xs k)) [
  | inl present ↦ (has_iff xs k).0 present
  | inr absent ↦ absurd (
      omega (
        arith,
        e,
        Includes-length (k ∷ xs) ys ((λ g. cc (sym absent ∙ (has_iff xs k).1 g)), d) (extend m),
      ))
]
  where
    extend : Elem k ys → Includes (k ∷ xs) ys
    extend m j (inl g) = subst (λ z. Elem z ys) g m
    extend m j (inr g) = h j g

key_set-Distinct : (ks : List Text) → Distinct (key_set ks)
unfolding key_set
key_set-Distinct [] = tt
key_set-Distinct (k ∷ ks) = elim (Bool-cases (has (key_set ks) k)) [
  | inl old ↦ rw old (key_set-Distinct ks)
  | inr new ↦ rw new ((λ m. cc (sym new ∙ (has_iff (key_set ks) k).1 m)), key_set-Distinct ks)
]

Elem-key_set : (j : Text) (ks : List Text) → Elem j (key_set ks) ↔ Elem j ks
unfolding key_set
Elem-key_set j [] = ((λ h. h), λ h. h)
Elem-key_set j (k ∷ ks) =
    let i = Elem-key_set j ks in
    elim (Bool-cases (has (key_set ks) k)) [
      | inl old ↦ rw old (
        (λ m. inr (i.0 m)),
        elim [
          | inl e ↦ subst (λ z. Elem z (key_set ks)) e ((has_iff (key_set ks) k).0 old)
          | inr m ↦ i.1 m
        ],
      )
      | inr new ↦ rw new (
        elim [ inl e ↦ inl e | inr m ↦ inr (i.0 m) ],
        elim [ inl e ↦ inl e | inr m ↦ inr (i.1 m) ],
      )
    ]

same_column_set_iff : (xs ys : KeySet) → (same_column_set xs ys ≡ true) ↔ Includes xs ys
unfolding same_column_set
same_column_set_iff [] ys = ((λ h k m. absurd m), λ h. refl)
same_column_set_iff (x ∷ xs) ys = elim (Bool-cases (has ys x)) [
  | inl present ↦ rw present (
      let i = same_column_set_iff xs ys in
      (
        (λ h k. elim [
          | inl e ↦ subst (λ z. Elem z ys) e ((has_iff ys x).0 present)
          | inr m ↦ i.0 h k m
        ]),
        λ h. i.1 (λ k m. h k (inr m)),
      ))
  | inr absent ↦ rw absent ((λ h. cc), λ h. cc (sym absent ∙ (has_iff ys x).1 (h x (inl refl))))
]

abbrev one_key : List Text → KeySet → Bool
one_key k cs = length (key_set k) == length cs && same_column_set (key_set k) cs

one_key_iff : (k : List Text) (cs : KeySet) → Distinct cs → (one_key k cs ≡ true) ↔ SameColumns k cs
one_key_iff k cs d = (
  (λ h.
      let e : length (key_set k) ≡ length cs = ground arith in
      let s : same_column_set (key_set k) cs ≡ true = ground arith in
      let forth = (same_column_set_iff (key_set k) cs).0 s in
      let back = Includes-back (key_set k) cs (key_set-Distinct k) e forth in
      ((λ j m. forth j ((Elem-key_set j k).1 m)), λ j m. (Elem-key_set j k).0 (back j m))),
  λ (forth, back).
      let forth' : Includes (key_set k) cs = λ j m. forth j ((Elem-key_set j k).0 m) in
      let back' : Includes cs (key_set k) = λ j m. (Elem-key_set j k).1 (back j m) in
      ground (
        arith,
        Includes-length (key_set k) cs (key_set-Distinct k) forth',
        Includes-length cs (key_set k) d back',
        (same_column_set_iff (key_set k) cs).1 forth',
      ),
)

-- For a conflict target that repeats no column, the loop over the unique keys finds a match exactly
-- if some key has the same columns as the target, in any order.
pub matches_key_iff :
    (keys : List (List Text)) (cs : KeySet)
    → Distinct cs
    → (matches_key keys cs ≡ true) ↔ IsUniqueKey keys cs
unfolding matches_key
matches_key_iff [] cs d = ((λ h. cc), λ h. absurd h)
matches_key_iff (k ∷ ks) cs d =
    either (one_key k cs) (matches_key ks cs) (one_key_iff k cs d) (matches_key_iff ks cs d)
  where
    either :
        {P Q : Type 0} (a b : Bool) → (a ≡ true) ↔ P → (b ≡ true) ↔ Q → ((a || b) ≡ true) ↔ (P ⊎ Q)
    either a b p q = ground arith
