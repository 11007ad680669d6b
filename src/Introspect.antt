-- ===== src/Introspect.antt =====
-- What the packages under introspect/ share: the rows that package database/sql gives for a query.
pub mod Tables
pub mod Postgres
pub mod Mysql
pub mod Sqlite
use tiqq.Prelude.{
  List, [], ◌∷◌, Text, Result, ok, ◌>>=◌, >>=_iff, ok_iff, ok-injective, prefixed, ◌≡◌, ◌↔◌, refl,
  ap,
}

-- The rows of a query: what `Scan` leaves for each row or its error, and the answers of `Close` and
-- `Err` behind them.
pub record Rows {ℓ} (A : Type ℓ) : Type ℓ where
  pub scans : List (Result A)
  pub closing : Result (Unit {0})
  pub iteration : Result (Unit {0})

module _ {ℓ κ} {S : Type ℓ} {A : Type κ} where
  -- The loop `for rows.Next()`, which returns the first error of `Scan` with a text in front of it.
  unfoldable pub each_row : Text → (S → A → S) → S → List (Result A) → Result S
  each_row prefix step s [] = ok s
  each_row prefix step s (r ∷ rs) =
      prefixed prefix r >>= (λ (a : A). each_row prefix step (step s a) rs)

module _ {ℓ κ} {A : Type ℓ} {B : Type κ} where
  -- A loop that appends what each element gives, and returns the first error.
  unfoldable pub map_result : (A → Result B) → List A → Result (List B)
  map_result f [] = ok []
  map_result f (a ∷ xs) = f a >>= (λ (b : B). map_result f xs >>= (λ (bs : List B). ok (b ∷ bs)))

  -- Two lists of one length whose corresponding elements are related.
  abbrev pub Pairs : (A → B → Type 0) → List A → List B → Type 0
  Pairs R [] [] = Unit
  Pairs R (a ∷ xs) (b ∷ bs) = R a b × Pairs R xs bs
  Pairs R _ _ = ⊥

  -- What the loop over a longer list returns.
  map_result-cons :
      (f : A → Result B) (a : A) (xs : List A) (bs : List B)
      → (map_result f (a ∷ xs) ≡ ok bs)
        ↔ ((b : B) × (f a ≡ ok b) × ((cs : List B) × (map_result f xs ≡ ok cs) × (b ∷ cs ≡ bs)))
  unfolding map_result
  map_result-cons f a xs bs = >>=_iff (f a) _ (λ b. >>=_iff (map_result f xs) _ (λ cs. ok_iff))

  -- The loop returns what the elements give.
  pub map_result_iff :
      (f : A → Result B) (R : A → B → Type 0)
      → ((a : A) (b : B) → (f a ≡ ok b) ↔ R a b)
      → (xs : List A) (bs : List B) → (map_result f xs ≡ ok bs) ↔ Pairs R xs bs
  unfolding map_result
  map_result_iff f R h [] [] = ((λ e. tt), λ u. refl)
  map_result_iff f R h [] (b ∷ bs) = ((λ e. cc e), λ u. absurd u)
  map_result_iff f R h (a ∷ xs) [] =
      ((λ e. let (b, p, (cs, q, r)) = (map_result-cons f a xs []).0 e in cc r), λ u. absurd u)
  map_result_iff f R h (a ∷ xs) (b ∷ bs) = (
    (λ e.
        let (b', p, (cs, q, r)) = (map_result-cons f a xs (b ∷ bs)).0 e in
        ((h a b).0 (cc (p, r)), (map_result_iff f R h xs bs).0 (cc (q, r)))),
    λ (p, q).
        (map_result-cons f a xs (b ∷ bs)).1
          (b, (h a b).1 p, (bs, (map_result_iff f R h xs bs).1 q, refl)),
  )
