-- ===== src/Bytes/Ensures.antt =====
-- What holds of the result of a call, if it has one.
use gitabic.Base.{◌≡◌, refl}
use gitabic.Bytes.{Outcome, ok, raise, fault, bind}

abbrev pub Ensures {ℓ κ} : {A : Type ℓ} → (A → Type κ) → Outcome A → Type κ
Ensures P (ok a) = P a
Ensures P (raise e) = Unit
Ensures P fault = Unit

pub Ensures-bind {ℓ ℓ' κ κ'} :
    {A : Type ℓ} {B : Type ℓ'} (P : A → Type κ) (Q : B → Type κ') (o : Outcome A)
    (f : A → Outcome B)
    → Ensures P o
    → ((a : A) → P a → Ensures Q (f a))
    → Ensures Q (bind o f)
Ensures-bind P Q (ok a) f h k = k a h
Ensures-bind P Q (raise e) f h k = tt
Ensures-bind P Q fault f h k = tt

pub bind-eq_ok {ℓ ℓ'} :
    {A : Type ℓ} {B : Type ℓ'} (o : Outcome A) (f : A → Outcome B) (b : B)
    → bind o f ≡ ok b
    → (a : A) × (o ≡ ok a) × (f a ≡ ok b)
bind-eq_ok (ok a) f b h = (a, refl, h)
bind-eq_ok (raise e) f b h = cc
bind-eq_ok fault f b h = cc
