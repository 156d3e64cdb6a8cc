-- ===== src/Base/Outcome.antt =====
-- What a piece of Go code comes to: a value, a panic (a nil dereference, a double close), or a wait
-- on a channel that nobody will ever write to.
use mathlib.Core.Path.{◌≡◌, refl}

pub data Outcome {ℓ} (A : Type ℓ) : Type ℓ where
  ok : A → Outcome A
  panic : Outcome A
  blocked : Outcome A

infixl 5 ◌>>=◌
abbrev pub ◌>>=◌ {ℓ κ} : {A : Type ℓ} {B : Type κ} → Outcome A → (A → Outcome B) → Outcome B
ok a >>= f = f a
panic >>= f = panic
blocked >>= f = blocked

-- The computation ends with a value that satisfies the predicate.
abbrev pub Returns {ℓ} : {A : Type ℓ} → Outcome A → (A → Type 0) → Type 0
Returns (ok a) P = P a
Returns panic P = ⊥
Returns blocked P = ⊥

-- If the computation ends with a value, the value satisfies the predicate.
abbrev pub IfReturns {ℓ} : {A : Type ℓ} → Outcome A → (A → Type 0) → Type 0
IfReturns (ok a) P = P a
IfReturns panic P = Unit
IfReturns blocked P = Unit

pub Returns-map {ℓ} :
    {A : Type ℓ} {P Q : A → Type 0} (m : Outcome A)
    → ((a : A) → P a → Q a)
    → Returns m P
    → Returns m Q
Returns-map (ok a) f h = f a h
Returns-map panic f h = h
Returns-map blocked f h = h

-- The inversion of a successful bind.
pub >>=-eq-ok {ℓ κ} :
    {A : Type ℓ} {B : Type κ} (now : Outcome A) (later : A → Outcome B) {end : B}
    → (now >>= later) ≡ ok end
    → (mid : A) × (now ≡ ok mid) × (later mid ≡ ok end)
>>=-eq-ok (ok mid) later e = (mid, refl, e)
>>=-eq-ok panic later e = cc
>>=-eq-ok blocked later e = cc

pub >>=-assoc {ℓ κ μ} :
    {A : Type ℓ} {B : Type κ} {C : Type μ} (m : Outcome A) (f : A → Outcome B) (g : B → Outcome C)
    → ((m >>= f) >>= g) ≡ (m >>= λ a. f a >>= g)
>>=-assoc (ok a) f g = refl
>>=-assoc panic f g = refl
>>=-assoc blocked f g = refl

pub >>=-ext {ℓ κ} :
    {A : Type ℓ} {B : Type κ} (m : Outcome A) {f g : A → Outcome B}
    → ((a : A) → f a ≡ g a)
    → (m >>= f) ≡ (m >>= g)
>>=-ext (ok a) h = h a
>>=-ext panic h = refl
>>=-ext blocked h = refl

pub Returns-bind {ℓ κ} :
    {A : Type ℓ} {B : Type κ} (P : A → Type 0) (Q : B → Type 0) (m : Outcome A) (f : A → Outcome B)
    → Returns m P
    → ((a : A) → P a → Returns (f a) Q)
    → Returns (m >>= f) Q
Returns-bind P Q (ok a) f h g = g a h
Returns-bind P Q panic f h g = h
Returns-bind P Q blocked f h g = h

pub Returns-value {ℓ} :
    {A : Type ℓ} (P : A → Type 0) (m : Outcome A) → Returns m P → (a : A) × (m ≡ ok a) × P a
Returns-value P (ok a) h = (a, refl, h)
Returns-value P panic h = absurd h
Returns-value P blocked h = absurd h

pub Returns-ok {ℓ} :
    {A : Type ℓ} (P : A → Type 0) {m : Outcome A} (a : A) → m ≡ ok a → P a → Returns m P
Returns-ok P a e h = rw e h

pub ok_inj {ℓ} : {A : Type ℓ} {a b : A} → ok a ≡ ok b → a ≡ b
ok_inj h = cc
