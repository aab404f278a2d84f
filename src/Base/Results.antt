-- ===== src/Base/Results.antt =====
-- Code that may raise, with the exceptions as values; each Python exception class is a type `E`.
use mathlib.Core.Path.{◌≡◌, refl, subst, ap}
use mathlib.Core.Bool.{Bool, true, false}
use mathlib.Core.Logic.{◌↔◌, ◌⊎◌, inl, inr}
use mathlib.Core.Option.{Option, none, some}

pub data Result {ℓ κ} (E : Type ℓ) (A : Type κ) : Type (ℓ ⊔ κ) where
  ok : A → Result E A
  err : E → Result E A

module _ {ℓ} {E : Type ℓ} where
  infixl 5 ◌>>=◌ ◌>>◌
  abbrev pub ◌>>=◌ {κ μ} : {A : Type κ} {B : Type μ} → Result E A → (A → Result E B) → Result E B
  ok a >>= f = f a
  err e >>= f = err e

  abbrev pub ◌>>◌ {κ} : {B : Type κ} → Result E (Unit {0}) → Result E B → Result E B
  m >> k = m >>= λ _. k

  -- `if not b: raise e`
  abbrev pub guard : Bool → E → Result E (Unit {0})
  guard true e = ok tt
  guard false e = err e

-- `if x is None: raise e`, and goes on with what `x` holds
abbrev pub or_raise {ℓ κ} : {E : Type ℓ} {A : Type κ} → Option A → E → Result E A
or_raise none e = err e
or_raise (some a) e = ok a

-- `try: … except E as exc: raise f(exc)`
abbrev pub map_err {ℓ κ μ} :
    {E : Type ℓ} {F : Type κ} {A : Type μ} → (E → F) → Result E A → Result F A
map_err f (ok a) = ok a
map_err f (err e) = err (f e)

pub Result-cases {ℓ κ} :
    {E : Type ℓ} {A : Type κ} (r : Result E A) → ((a : A) × (r ≡ ok a)) ⊎ ((e : E) × (r ≡ err e))
Result-cases (ok a) = inl (a, refl)
Result-cases (err e) = inr (e, refl)

-- Inversion of a successful bind.
pub >>=-eq-ok {ℓ κ μ} :
    {E : Type ℓ} {A : Type κ} {B : Type μ} (r : Result E A) (next : A → Result E B) {final : B}
    → (r >>= next) ≡ ok final
    → (x : A) × (r ≡ ok x) × (next x ≡ ok final)
>>=-eq-ok (err raised) next same = cc
>>=-eq-ok (ok x) next same = (x, refl, same)

-- `P` holds of whatever the code returns; one rule for each way to build it.
pub record Yields {ℓ κ μ} {E : Type ℓ} {A : Type κ} (P : A → Type μ) (r : Result E A)
    : Type (ℓ ⊔ κ ⊔ μ) where
  pub at : (a : A) → r ≡ ok a → P a

abbrev ok_or {ℓ κ} : {E : Type ℓ} {A : Type κ} → A → Result E A → A
ok_or d (ok a) = a
ok_or d (err e) = d

pub ok-injective {ℓ κ} :
    {E : Type ℓ} {A : Type κ} (a b : A) → ◌≡◌ {A = Result E A} (ok a) (ok b) → a ≡ b
ok-injective a b h = ap (ok_or a) h

module _ {ℓ κ ν} {E : Type ℓ} {A : Type κ} (P : A → Type ν) where
  pub Yields-ok : {a : A} → P a → Yields {E = E} P (ok a)
  Yields-ok {a} p = record { at = λ b h. subst P (ok-injective a b h) p }

  pub Yields-err : (e : E) → Yields P (err e)
  Yields-err e = record { at = λ b h. cc }

module _ {ℓ κ μ ν} {E : Type ℓ} {A : Type κ} {B : Type μ} {P : B → Type ν} where
  pub Yields-bind :
      (m : Result E A) (f : A → Result E B)
      → ((a : A) → m ≡ ok a → Yields P (f a))
      → Yields P (m >>= f)
  Yields-bind (ok a) f k = k a refl
  Yields-bind (err e) f k = Yields-err P e

module _ {ℓ κ ν} {E : Type ℓ} {A : Type κ} {P : A → Type ν} where
  pub Yields-guard :
      (b : Bool) (e : E) (k : Result E A) → (b ≡ true → Yields P k) → Yields P (guard b e >> k)
  Yields-guard true e k h = h refl
  Yields-guard false e k h = Yields-err P e

module _ {ℓ κ μ ν} {E : Type ℓ} {A : Type κ} {B : Type μ} {P : B → Type ν} where
  pub Yields-or_raise :
      (o : Option A) (e : E) (f : A → Result E B)
      → ((a : A) → o ≡ some a → Yields P (f a))
      → Yields P (or_raise o e >>= f)
  Yields-or_raise (some a) e f k = k a refl
  Yields-or_raise none e f k = Yields-err P e

-- The same rules for code that returns: each step is given with what it returns.
module _ {ℓ κ μ} {E : Type ℓ} {A : Type κ} {B : Type μ} {r : Result E B} where
  pub bind_ok : {m : Result E A} {a : A} (f : A → Result E B) → m ≡ ok a → f a ≡ r → (m >>= f) ≡ r
  bind_ok f e h = rw e h

  pub or_raise_ok :
      {o : Option A} {a : A} (e : E) (f : A → Result E B)
      → o ≡ some a
      → f a ≡ r
      → (or_raise o e >>= f) ≡ r
  or_raise_ok e f p h = rw p h

module _ {ℓ κ} {E : Type ℓ} {A : Type κ} {k r : Result E A} where
  pub guard_ok : {b : Bool} (e : E) → b ≡ true → k ≡ r → (guard b e >> k) ≡ r
  guard_ok e p h = rw p h

pub true_of_guard {ℓ} : {E : Type ℓ} (b : Bool) (e : E) → guard b e ≡ ok tt → b ≡ true
true_of_guard true e h = refl
true_of_guard false e h = cc

-- A sequence of checks returns exactly if both parts do, and a test if it holds.
pub >>-eq-ok_iff {ℓ κ μ ν} :
    {E : Type ℓ} {A : Type κ} {P : Type μ} {Q : Type ν} {m : Result E (Unit {0})} {k : Result E A}
    {a : A}
    → (m ≡ ok tt) ↔ P
    → (k ≡ ok a) ↔ Q
    → ((m >> k) ≡ ok a) ↔ (P × Q)
>>-eq-ok_iff {m = ok u} p q = (λ h. (p.0 refl, q.0 h), λ (x, y). q.1 y)
>>-eq-ok_iff {m = err e} p q = (λ h. cc, λ (x, y). cc (p.1 x))

pub guard_iff {ℓ} : {E : Type ℓ} (b : Bool) (e : E) → (guard b e ≡ ok tt) ↔ (b ≡ true)
guard_iff b e = (true_of_guard b e, λ h. rw h)
