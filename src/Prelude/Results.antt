-- ===== src/Prelude/Results.antt =====
-- `Result<T, E>` with `?`, written as `do` blocks, and postconditions of successful results.
use mathlib.Core.Path.{◌≡◌, refl, subst}
use mathlib.Core.Logic.{◌↔◌}
use mathlib.Core.Bool.{Bool, true, false}
use parallax_telemetry_playg.Prelude.Tests.{if◌then◌else◌}
use mathlib.Core.Option.{Option, none, some}

pub data Result {ℓ κ} (E : Type ℓ) (A : Type κ) : Type (ℓ ⊔ κ) where
  ok : A → Result E A
  err : E → Result E A

infixl 5 ◌>>=◌ ◌>>◌
abbrev pub ◌>>=◌ {ℓ κ μ} :
    {E : Type ℓ} {A : Type κ} {B : Type μ} → Result E A → (A → Result E B) → Result E B
err e >>= k = err e
ok a >>= k = k a

abbrev pub ◌>>◌ {ℓ μ} : {E : Type ℓ} {B : Type μ} → Result E (Unit {0}) → Result E B → Result E B
err e >> rest = err e
ok u >> rest = rest

-- `if !test { return Err(e) }`.
abbrev pub ensure {ℓ} : {E : Type ℓ} → Bool → E → Result E (Unit {0})
ensure true e = ok tt
ensure false e = err e

-- `Option::ok_or_else`.
abbrev pub ok_or {ℓ κ} : {E : Type ℓ} {A : Type κ} → Option A → E → Result E A
ok_or none e = err e
ok_or (some a) e = ok a

-- A property of every successful result.
pub record Ensures {ℓ κ μ} {E : Type ℓ} {A : Type κ} (P : A → Type μ) (r : Result E A)
    : Type (ℓ ⊔ κ ⊔ μ) where
  pub at : (a : A) → r ≡ ok a → P a

module _ {ℓ κ} {E : Type ℓ} {A : Type κ} where
  pub Ensures-ok {μ} : {P : A → Type μ} (a : A) → P a → Ensures {E = E} P (ok a)
  Ensures-ok {P} a p = record { at = λ b e. subst P (cc) p }

  pub Ensures-err {μ} : {P : A → Type μ} (e : E) → Ensures P (err e)
  Ensures-err e = record { at = λ a h. absurd (cc) }

  pub Ensures-if {μ} :
      {P : A → Type μ} (b : Bool) (m n : Result E A)
      → (b ≡ true → Ensures P m)
      → (b ≡ false → Ensures P n)
      → Ensures P (if b then m else n)
  Ensures-if true m n km kn = km refl
  Ensures-if false m n km kn = kn refl

  pub Ensures-bind {μ ν} :
      {B : Type ν} {P : B → Type μ} (r : Result E A) (f : A → Result E B)
      → ((a : A) → r ≡ ok a → Ensures P (f a))
      → Ensures P (r >>= f)
  Ensures-bind (ok a) f h = h a refl
  Ensures-bind (err e) f h = record { at = λ a p. absurd (cc) }

  pub >>=-eq-ok {ν} :
      {B : Type ν} (r : Result E A) (k : A → Result E B) {done : B}
      → (r >>= k) ≡ ok done
      → (a : A) × (r ≡ ok a) × (k a ≡ ok done)
  >>=-eq-ok (err e) k h = absurd (cc)
  >>=-eq-ok (ok a) k h = (a, refl, h)

  pub ok_or-inv : (e : E) (o : Option A) {a : A} → ok_or o e ≡ ok a → o ≡ some a
  ok_or-inv e none h = absurd (cc)
  ok_or-inv e (some b) h = cc

pub Ensures-ensure {ℓ κ μ} :
    {E : Type ℓ} {A : Type κ} {P : A → Type μ} (b : Bool) (e : E) (m : Result E A)
    → (b ≡ true → Ensures P m)
    → Ensures P (ensure b e >> m)
Ensures-ensure true e m h = h refl
Ensures-ensure false e m h = Ensures-err e

pub Ensures-option {ℓ κ μ ν} :
    {E : Type ℓ} {A : Type κ} {X : Type ν} {P : A → Type μ} (o : Option X) (n : Result E A)
    (f : X → Result E A)
    → (o ≡ none → Ensures P n)
    → ((x : X) → o ≡ some x → Ensures P (f x))
    → Ensures P (elim o [ none ↦ n | some x ↦ f x ])
Ensures-option none n f hn hf = hn refl
Ensures-option (some x) n f hn hf = hf x refl

-- A guarded computation succeeds when the guard holds and the rest succeeds.
pub ensure_iff {ℓ κ} :
    {E : Type ℓ} {A : Type κ} (b : Bool) (e : E) (m : Result E A) (a : A)
    → ((ensure b e >> m) ≡ ok a) ↔ ((b ≡ true) × (m ≡ ok a))
ensure_iff true e m a = (λ h. (refl, h), λ h. h.1)
ensure_iff false e m a = (λ h. absurd (cc), λ h. absurd (cc))

pub ensure-ok_iff {ℓ} : {E : Type ℓ} (b : Bool) (e : E) → (ensure b e ≡ ok tt) ↔ (b ≡ true)
ensure-ok_iff true e = (λ h. refl, λ h. refl)
ensure-ok_iff false e = (λ h. absurd (cc), λ h. absurd (cc))

pub Ensures-then {ℓ κ μ} :
    {E : Type ℓ} {A : Type κ} {P : A → Type μ} (r : Result E (Unit {0})) (m : Result E A)
    → (r ≡ ok tt → Ensures P m)
    → Ensures P (r >> m)
Ensures-then (ok u) m h = h refl
Ensures-then (err e) m h = Ensures-err e

pub >>-eq-ok {ℓ κ} :
    {E : Type ℓ} {A : Type κ} (r : Result E (Unit {0})) (m : Result E A) {a : A}
    → (r >> m) ≡ ok a
    → (r ≡ ok tt) × (m ≡ ok a)
>>-eq-ok (ok u) m h = (refl, h)
>>-eq-ok (err e) m h = absurd (cc)
