-- ===== src/Prelude/Sorts.antt =====
-- What package sort makes of a slice, as an insertion sort, and that it forgets the order before.
use Prim.Native.Nat.{ℕ}
use mathlib.Core.Path.{◌≡◌, refl, ◌∙◌}
use mathlib.Core.Bool.{Bool}
use mathlib.Core.List.{List, [], ◌∷◌}
use mathlib.Core.List.Permᴰ.{Permᴰ, nil, cons, swap, trans}
use native.Mathlib.Omega.{arith}
use tiqq.Prelude.Tests.{if◌then◌else◌, leb}

module _ {ℓ} {A : Type ℓ} (before : A → A → Bool) where
  unfoldable pub insert_sorted : A → List A → List A
  insert_sorted a [] = a ∷ []
  insert_sorted a (b ∷ xs) =
      let rest = insert_sorted a xs in if before a b then a ∷ b ∷ xs else b ∷ rest

  unfoldable pub sort : List A → List A
  unfolding insert_sorted
  sort [] = []
  sort (a ∷ xs) = insert_sorted a (sort xs)

insert_sorted_comm :
    (a b : ℕ) (xs : List ℕ)
    → insert_sorted leb a (insert_sorted leb b xs) ≡ insert_sorted leb b (insert_sorted leb a xs)
unfolding insert_sorted
insert_sorted_comm a b [] = ground arith
insert_sorted_comm a b (c ∷ xs) = ground (arith, insert_sorted_comm a b xs)

-- A sorted list of numbers forgets in which order they were.
pub sort-Perm : {xs ys : List ℕ} → Permᴰ xs ys → sort leb xs ≡ sort leb ys
unfolding sort
sort-Perm nil = refl
sort-Perm (cons {b = b} e p) = cc (e, sort-Perm p)
sort-Perm (swap {a} {b} {l = l} e f) = cc (e, f, insert_sorted_comm a b (sort leb l))
sort-Perm (trans p q) = sort-Perm p ∙ sort-Perm q
