-- ===== src/Base/Result.antt =====
-- A call that may raise: the value, or the exception as a value.
use mathlib.Core.Bool.{Bool, true, false}
use mathlib.Core.Path.{◌≡◌, refl, sym, subst}

pub data Result {ℓ κ} (E : Type ℓ) (A : Type κ) : Type (ℓ ⊔ κ) where
  ok : A → Result E A
  err : E → Result E A

infixl 5 ◌>>=◌ ◌>>◌
abbrev pub ◌>>=◌ {ℓ κ μ} :
    {E : Type ℓ} {A : Type κ} {B : Type μ} → Result E A → (A → Result E B) → Result E B
ok a >>= f = f a
err x >>= f = err x

abbrev pub ◌>>◌ {ℓ κ μ} :
    {E : Type ℓ} {A : Type κ} {B : Type μ} → Result E A → Result E B → Result E B
first >> then = first >>= λ _. then

-- `if not test: raise e`
abbrev pub guard {ℓ} : {E : Type ℓ} → Bool → E → Result E (Unit {0})
guard true reason = ok tt
guard false reason = err reason

-- What holds of the value, if there is one.
abbrev pub OnOk {ℓ κ μ} : {E : Type ℓ} {A : Type κ} → (A → Type μ) → Result E A → Type μ
OnOk P (ok a) = P a
OnOk P (err x) = Unit

pub OnOk-bind {ℓ κ μ ν} :
    {E : Type ℓ} {A : Type κ} {B : Type μ} (P : B → Type ν) (m : Result E A) (f : A → Result E B)
    → ((a : A) → m ≡ ok a → OnOk P (f a))
    → OnOk P (m >>= f)
OnOk-bind P (ok a) f h = h a refl
OnOk-bind P (err x) f h = tt

pub OnOk_value {ℓ κ μ} :
    {E : Type ℓ} {A : Type κ} (P : A → Type μ) (m : Result E A) {a : A} → OnOk P m → m ≡ ok a → P a
OnOk_value P m p e = subst (OnOk P) e p

pub ok_injective {ℓ κ} :
    {E : Type ℓ} {A : Type κ} {a b : A} → ◌≡◌ {A = Result E A} (ok a) (ok b) → a ≡ b
ok_injective e = cc

pub >>=-eq-ok {ℓ κ μ} :
    {E : Type ℓ} {A : Type κ} {B : Type μ} (call : Result E A) (rest : A → Result E B) {b : B}
    → (call >>= rest) ≡ ok b
    → (value : A) × (call ≡ ok value) × (rest value ≡ ok b)
>>=-eq-ok (ok value) rest returned = (value, refl, returned)
>>=-eq-ok (err reason) rest returned = cc

pub guard_holds {ℓ} :
    {E : Type ℓ} (b : Bool) (e : E) {u : Unit {0}}
    → ◌≡◌ {A = Result E (Unit {0})} (guard b e) (ok u)
    → b ≡ true
guard_holds true e h = refl
guard_holds false e h = absurd cc

-- A first call that returns, and the rest that then does.
pub >>=-returns {ℓ κ μ} :
    {E : Type ℓ} {A : Type κ} {B : Type μ} (m : Result E A) (f : A → Result E B) {a : A}
    → m ≡ ok a
    → (b : B) × (f a ≡ ok b)
    → (b : B) × ((m >>= f) ≡ ok b)
>>=-returns m f e r = subst (λ x. (b : _) × ((x >>= f) ≡ ok b)) (sym e) r

-- What holds of the exception, if one was raised.
abbrev pub OnErr {ℓ κ μ} : {E : Type ℓ} {A : Type κ} → (E → Type μ) → Result E A → Type μ
OnErr P (ok a) = Unit
OnErr P (err x) = P x

pub OnErr-bind {ℓ κ μ ν} :
    {E : Type ℓ} {A : Type κ} {B : Type μ} (P : E → Type ν) (m : Result E A) (f : A → Result E B)
    → OnErr P m
    → ((a : A) → m ≡ ok a → OnErr P (f a))
    → OnErr P (m >>= f)
OnErr-bind P (ok a) f p h = h a refl
OnErr-bind P (err x) f p h = p

pub OnErr-guard {ℓ κ} :
    {E : Type ℓ} (P : E → Type κ) (b : Bool) (reason : E) → P reason → OnErr P (guard b reason)
OnErr-guard P true reason p = tt
OnErr-guard P false reason p = p

pub OnErr_reason {ℓ κ μ} :
    {E : Type ℓ} {A : Type κ} (P : E → Type μ) (m : Result E A) {x : E}
    → OnErr P m
    → m ≡ err x
    → P x
OnErr_reason P m p e = subst (OnErr P) e p
