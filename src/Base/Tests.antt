-- ===== src/Base/Tests.antt =====
-- Boolean tests on numbers, the conditional, and the case splits that keep their equation.
use Prim.Native.Nat.{ℕ, ◌≤◌, ◌<◌, compare, Ordering}
use mathlib.Core.Path.{◌≡◌, refl}
use mathlib.Core.Logic.{◌⊎◌, ◌↔◌, inl, inr}
use mathlib.Core.Bool.{Bool, true, false, ◌&&◌, ◌||◌, not}
use mathlib.Core.Option.{Option, none, some}
use native.Mathlib.Omega.{arith}

abbrev pub ltb : ℕ → ℕ → Bool
ltb a b = elim (compare a b) [ Ordering.lt ↦ true | _ ↦ false ]

abbrev pub leb : ℕ → ℕ → Bool
leb a b = elim (compare a b) [ Ordering.gt ↦ false | _ ↦ true ]

abbrev pub eqb : ℕ → ℕ → Bool
eqb a b = elim (compare a b) [ Ordering.eq ↦ true | _ ↦ false ]

-- `Math.max` on numbers that are not negative
abbrev pub max : ℕ → ℕ → ℕ
max a b = elim (compare a b) [ Ordering.lt ↦ b | _ ↦ a ]

infix 1 if◌then◌else◌
abbrev pub if◌then◌else◌ {ℓ} : {A : Type ℓ} → Bool → A → A → A
if true then x else y = x
if false then x else y = y

pub ltb→lt : (a b : ℕ) → ltb a b ≡ true → a < b
ltb→lt a b h = ground arith

pub leb→le : (a b : ℕ) → leb a b ≡ true → a ≤ b
leb→le a b h = ground arith

pub Bool-cases : (b : Bool) → (b ≡ true) ⊎ (b ≡ false)
Bool-cases true = inl refl
Bool-cases false = inr refl

-- a conjunction of tests, and what each test decides
pub and_iff {ℓ κ} :
    {P : Type ℓ} {Q : Type κ} (a b : Bool)
    → (a ≡ true) ↔ P
    → (b ≡ true) ↔ Q
    → (a && b ≡ true) ↔ (P × Q)
and_iff true b p q = (λ h. (p.0 refl, q.0 h), λ (_, y). q.1 y)
and_iff false b p q = (λ h. cc, λ (x, _). p.1 x)

-- an alternative of tests, and what each test decides
pub or_iff {ℓ κ} :
    {P : Type ℓ} {Q : Type κ} (a b : Bool)
    → (a ≡ true) ↔ P
    → (b ≡ true) ↔ Q
    → (a || b ≡ true) ↔ (P ⊎ Q)
or_iff true b p q = (λ h. inl (p.0 refl), λ _. refl)
or_iff false b p q = (λ h. inr (q.0 h), λ h. elim h [ inl x ↦ absurd (cc (p.1 x)) | inr y ↦ q.1 y ])

-- a negated test, and what the test decides
pub not_iff {ℓ} : {P : Type ℓ} (b : Bool) → (b ≡ true) ↔ P → (not b ≡ true) ↔ (¬ P)
not_iff true p = (λ h. absurd (cc h), λ f. absurd (f (p.0 refl)))
not_iff false p = (λ h x. absurd (cc (p.1 x)), λ f. refl)

module _ {ℓ} {A : Type ℓ} where
  pub Option-cases : (o : Option A) → (o ≡ none) ⊎ ((a : A) × (o ≡ some a))
  Option-cases none = inl refl
  Option-cases (some a) = inr (a, refl)

  -- `a ?? b`
  abbrev pub or_else : Option A → A → A
  or_else none b = b
  or_else (some a) b = a

  abbrev pub is_some : Option A → Bool
  is_some none = false
  is_some (some a) = true

-- the first of a chain of checks that has something to report
infixr 30 ◌<|>◌
abbrev pub ◌<|>◌ {ℓ} : {A : Type ℓ} → Option A → Option A → Option A
none <|> k = k
some e <|> k = some e

-- such a chain is silent exactly when each of its checks is
pub <|>-eq-none {ℓ} : {A : Type ℓ} (m k : Option A) → (m <|> k) ≡ none → (m ≡ none) × (k ≡ none)
<|>-eq-none none k h = (refl, h)
<|>-eq-none (some e) k h = cc

-- a chain of two checks, and what each one lets pass
pub <|>_iff {ℓ κ μ} :
    {A : Type ℓ} {P : Type κ} {Q : Type μ} (m k : Option A)
    → (m ≡ none) ↔ P
    → (k ≡ none) ↔ Q
    → ((m <|> k) ≡ none) ↔ (P × Q)
<|>_iff none k p q = (λ h. (p.0 refl, q.0 h), λ (_, y). q.1 y)
<|>_iff (some e) k p q = (λ h. cc, λ (x, _). p.1 x)
