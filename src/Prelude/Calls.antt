-- ===== src/Prelude/Calls.antt =====
-- How a Go call ends: with a value, with a non-nil error, or in a panic. `stuck` is no Go
-- outcome: a loop of the model ran out of fuel.
use mathlib.Core.Path.{◌≡◌, refl, ap}
use mathlib.Core.Logic.{◌≢◌}

pub data Result {ℓ κ} (E : Type ℓ) (A : Type κ) : Type (ℓ ⊔ κ) where
  ok : A → Result E A
  err : E → Result E A
  panic : Result E A
  stuck : Result E A

infixl 5 ◌>>=◌
abbrev pub ◌>>=◌ {ℓ κ ι} :
    {E : Type ℓ} {A : Type κ} {B : Type ι} → Result E A → (A → Result E B) → Result E B
ok a >>= f = f a
err e >>= f = err e
panic >>= f = panic
stuck >>= f = stuck

-- Both halves of a call that returns have returned.
pub >>=-eq-ok {ℓ κ ι} :
    {E : Type ℓ} {A : Type κ} {B : Type ι} (first : Result E A) (next : A → Result E B) {result : B}
    → (first >>= next) ≡ ok result
    → (mid : A) × (first ≡ ok mid) × (next mid ≡ ok result)
>>=-eq-ok (ok mid) next h = (mid, refl, h)
>>=-eq-ok (err _) next h = cc
>>=-eq-ok panic next h = cc
>>=-eq-ok stuck next h = cc

pub >>=-ne-stuck {ℓ κ ι} :
    {E : Type ℓ} {A : Type κ} {B : Type ι} (m : Result E A) (f : A → Result E B)
    → m ≢ stuck
    → ((a : A) → m ≡ ok a → f a ≢ stuck)
    → (m >>= f) ≢ stuck
>>=-ne-stuck (ok a) f h k = k a refl
>>=-ne-stuck (err _) f h k = λ e. cc
>>=-ne-stuck panic f h k = λ e. cc
>>=-ne-stuck stuck f h k = absurd (h refl)

-- The same end, with another error.
abbrev pub with_error {ℓ κ ι} :
    {E : Type ℓ} {F : Type κ} {A : Type ι} → (E → F) → Result E A → Result F A
with_error f (ok a) = ok a
with_error f (err e) = err (f e)
with_error f panic = panic
with_error f stuck = stuck

pub ok-injective {ℓ κ} :
    {E : Type ℓ} {A : Type κ} (a b : A) → ◌≡◌ {A = Result E A} (ok a) (ok b) → a ≡ b
ok-injective a b h = ap (λ o. elim o [ ok x ↦ x | err e ↦ a | panic ↦ a | stuck ↦ a ]) h
