-- ===== src/Base/Panics.antt =====
-- Code that may stop the kernel: a failed `wassert` or `assert`, a `panic`, a full container.
use mathlib.Core.Path.{◌≡◌, refl, subst}
use mathlib.Core.Bool.{Bool, true, false}
use wrmos.Base.Tests.{if◌then◌else◌}

-- `ok` is a return, `panic` is a stop.
pub data Run {ℓ} (A : Type ℓ) : Type ℓ where
  ok : A → Run A
  panic : Run A

-- Nothing runs after a stop.
infixl 5 ◌>>=◌
abbrev pub ◌>>=◌ {ℓ κ} : {A : Type ℓ} {B : Type κ} → Run A → (A → Run B) → Run B
panic >>= rest = panic
ok a >>= rest = rest a

infixl 5 ◌>>◌
abbrev pub ◌>>◌ {κ} : {B : Type κ} → Run (Unit {0}) → Run B → Run B
check >> rest = check >>= λ _. rest

abbrev pub wassert : Bool → Run (Unit {0})
wassert holds = elim holds [ false ↦ panic | true ↦ ok tt ]

-- If a sequence returns, then its first part has returned something, and the rest goes on from it.
pub >>=-eq-ok {ℓ κ} :
    {A : Type ℓ} {B : Type κ} {b : B} (first : Run A) (rest : A → Run B)
    → (first >>= rest) ≡ ok b
    → (a : A) × (first ≡ ok a) × (rest a ≡ ok b)
>>=-eq-ok panic rest e = cc
>>=-eq-ok (ok a) rest e = (a, refl, e)

pub ok-eq {ℓ} : {A : Type ℓ} {a b : A} → ok a ≡ ok b → a ≡ b
ok-eq e = cc

-- What the code returns, if it returns, has the property `P`.
pub data Ensures {ℓ κ} {A : Type ℓ} (P : A → Type κ) : Run A → Type (ℓ ⊔ κ) where
  returns : (a : A) → P a → Ensures P (ok a)
  stops : Ensures P panic

module _ {ℓ κ} {A : Type ℓ} (P : A → Type κ) where
  pub Ensures-eq : (r : Run A) → ((a : A) → r ≡ ok a → P a) → Ensures P r
  Ensures-eq (ok a) h = returns a (h a refl)
  Ensures-eq panic h = stops

  pub Ensures-ok : {a : A} (r : Run A) → Ensures P r → r ≡ ok a → P a
  Ensures-ok (ok b) (returns _ p) e = subst P (ok-eq e) p
  Ensures-ok panic stops e = cc

  pub Ensures-if :
      (b : Bool) {x y : Run A} → Ensures P x → Ensures P y → Ensures P (if b then x else y)
  Ensures-if true p q = p
  Ensures-if false p q = q

pub Ensures-bind {ℓ κ ι ο} :
    {A : Type ℓ} {B : Type ι} (P : A → Type κ) (Q : B → Type ο) (m : Run A) {f : A → Run B}
    → Ensures P m
    → ((a : A) → P a → Ensures Q (f a))
    → Ensures Q (m >>= f)
Ensures-bind P Q (ok a) (returns _ p) h = h a p
Ensures-bind P Q panic stops h = stops

-- What is known of the first part is not needed.
pub Ensures-skip {ℓ κ ι} :
    {A : Type ℓ} {B : Type ι} (Q : B → Type κ) (m : Run A) {f : A → Run B}
    → ((a : A) → m ≡ ok a → Ensures Q (f a))
    → Ensures Q (m >>= f)
Ensures-skip Q (ok a) h = h a refl
Ensures-skip Q panic h = stops
