-- ===== src/Prelude/Results.antt =====
-- Results of fallible operations: the pair (value, error) of Go, and panics.
use mathlib.Core.Path.{◌≡◌, refl, sym, ap, subst}
use mathlib.Core.Logic.{◌↔◌}
use mathlib.Core.Bool.{Bool, true, false}
use mathlib.Core.List.{◌++◌}
use tiqq.Prelude.Texts.{Text}

-- `errorf` is an error value with its formatted text, `panic` a panic with its message.
pub data Error : Type 0 where
  errorf : Text → Error
  panic : Text → Error

pub data Result {ℓ} (A : Type ℓ) : Type ℓ where
  ok : A → Result A
  err : Error → Result A

abbrev pub Succeeds {ℓ} : {A : Type ℓ} → Result A → Type ℓ
Succeeds {A} m = (a : A) × (m ≡ ok a)

-- `if bad { return err }`
abbrev pub fail_if : Bool → Error → Result (Unit {0})
fail_if false e = ok tt
fail_if true e = err e

-- `fmt.Errorf("…: %w", err)` of an error that is returned
abbrev pub prefixed {ℓ} : {A : Type ℓ} → Text → Result A → Result A
prefixed prefix (ok a) = ok a
prefixed prefix (err (errorf e)) = err (errorf (prefix ++ e))
prefixed prefix (err (panic e)) = err (panic e)

-- What follows a call whose error is returned: `if err != nil { return …, err }`.
infixl 5 ◌>>=◌
abbrev pub ◌>>=◌ {ℓ κ} : {A : Type ℓ} {B : Type κ} → Result A → (A → Result B) → Result B
err failure >>= rest = err failure
ok a >>= rest = rest a

infixl 5 ◌>>◌
abbrev pub ◌>>◌ {ℓ} : {B : Type ℓ} → Result (Unit {0}) → Result B → Result B
check >> rest = check >>= (λ (done : Unit {0}). rest)

pub >>=-eq-ok {ℓ κ} :
    {B : Type κ} {A : Type ℓ} (m : Result A) (rest : A → Result B) {b : B}
    → (m >>= rest) ≡ ok b
    → (a : A) × (m ≡ ok a) × (rest a ≡ ok b)
>>=-eq-ok (err failure) rest h = cc
>>=-eq-ok (ok a) rest h = (a, refl, h)

-- A guard that did not fail was false, and the rest succeeded.
pub fail_if-eq-ok {ℓ} :
    {B : Type ℓ} (bad : Bool) (e : Error) (k : Result B) {b : B}
    → (fail_if bad e >> k) ≡ ok b
    → (bad ≡ false) × (k ≡ ok b)
fail_if-eq-ok true e k h = cc
fail_if-eq-ok false e k h = (refl, h)

pub prefixed-eq-ok {ℓ} :
    {A : Type ℓ} (prefix : Text) (m : Result A) {a : A} → prefixed prefix m ≡ ok a → m ≡ ok a
prefixed-eq-ok prefix (ok a) h = h
prefixed-eq-ok prefix (err (errorf e)) h = cc h
prefixed-eq-ok prefix (err (panic e)) h = cc h

-- A check in front of the rest of a computation.
pub >>-eq-ok {ℓ} :
    {B : Type ℓ} (m : Result (Unit {0})) (k : Result B) {b : B}
    → (m >> k) ≡ ok b
    → (m ≡ ok tt) × (k ≡ ok b)
>>-eq-ok (ok tt) k h = (refl, h)
>>-eq-ok (err e) k h = cc

-- What a check in front of the rest accepts is what both accept.
pub >>_iff {ℓ κ ν} :
    {B : Type ℓ} {P : Type κ} {Q : Type ν} (m : Result (Unit {0})) (k : Result B) {b : B}
    → (m ≡ ok tt) ↔ P
    → (k ≡ ok b) ↔ Q
    → ((m >> k) ≡ ok b) ↔ (P × Q)
>>_iff (ok tt) k p q = ((λ h. (p.0 refl, q.0 h)), λ h. q.1 h.1)
>>_iff (err e) k p q = ((λ h. cc), λ h. cc (p.1 h.0))

pub fail_if_iff : (bad : Bool) (e : Error) → (fail_if bad e ≡ ok tt) ↔ (bad ≡ false)
fail_if_iff true e = ((λ h. cc), λ h. cc)
fail_if_iff false e = ((λ h. refl), λ h. refl)

content {ℓ} : {A : Type ℓ} → A → Result A → A
content d (ok a) = a
content d (err e) = d

pub ok-injective {ℓ} : {A : Type ℓ} {a b : A} → ok a ≡ ok b → a ≡ b
unfolding content
ok-injective {a} h = ap (content a) h

pub >>=_iff {ℓ κ ν} :
    {A : Type ℓ} {B : Type κ} {P : A → Type ν} (m : Result A) (f : A → Result B) {b : B}
    → ((a : A) → (f a ≡ ok b) ↔ P a)
    → ((m >>= f) ≡ ok b) ↔ ((a : A) × (m ≡ ok a) × P a)
>>=_iff {P = P} (ok a) f p =
    ((λ h. (a, refl, (p a).0 h)), λ (c, e, h). (p a).1 (subst P (sym (ok-injective e)) h))
>>=_iff (err e) f p = ((λ h. cc), λ h. cc (h.1))

pub ok_iff {ℓ} : {A : Type ℓ} {a b : A} → (ok a ≡ ok b) ↔ (a ≡ b)
ok_iff = (ok-injective, ap ok)

pub ↔_trans {ℓ κ ν} : {A : Type ℓ} {B : Type κ} {C : Type ν} → A ↔ B → B ↔ C → A ↔ C
↔_trans f g = ((λ a. g.0 (f.0 a)), λ c. f.1 (g.1 c))
