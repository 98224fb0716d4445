-- ===== src/Base/Eq.antt =====
-- `===` on values that are compared whole, and `includes` on lists of them.
use Prim.Native.Nat.{ℕ}
use Prim.Native.String.{String}
use mathlib.Core.Path.{◌≡◌, refl}
use mathlib.Core.Bool.{Bool, true, false, ◌||◌, not, or-true}
use mathlib.Core.Logic.{◌↔◌, ◌⊎◌, inl, inr}
use mathlib.Core.List.{List, [], ◌∷◌, ◌++◌, Memᴰ}
use native.Mathlib.Omega.{arith}
use text.Mathlib.Text.{◌==◌ as str_eq}
use text.Mathlib.TextEquality.{eq_iff}
use aws_mcp_gateway.Base.Tests.{eqb, Bool-cases, if◌then◌else◌}

pub eqb_iff : (a b : ℕ) → (eqb a b ≡ true) ↔ (a ≡ b)
eqb_iff a b = ground arith

pub record Eq {ℓ} (A : Type ℓ) : Type ℓ where
  pub test : A → A → Bool
  pub decides : (x y : A) → (test x y ≡ true) ↔ (x ≡ y)

instance abbrev pub string_eq : Eq String
string_eq = record { test = str_eq; decides = eq_iff }

instance abbrev pub nat_eq : Eq ℕ
nat_eq = record { test = eqb; decides = eqb_iff }

infix 50 ◌!=◌ ◌==◌
abbrev pub ◌==◌ {ℓ} : {A : Type ℓ} ⦃e : Eq A⦄ → A → A → Bool
◌==◌ ⦃e = e⦄ x y = e.test x y

abbrev pub ◌!=◌ {ℓ} : {A : Type ℓ} ⦃e : Eq A⦄ → A → A → Bool
x != y = not (x == y)

pub string_eq_iff : (s t : String) → ((s == t) ≡ true) ↔ (s ≡ t)
string_eq_iff s t = eq_iff s t

module _ {ℓ} {A : Type ℓ} ⦃e : Eq A⦄ where
  -- `xs.includes(a)`, and `has` of a set
  unfoldable pub includes : List A → A → Bool
  includes [] a = false
  includes (x ∷ xs) a = a == x || includes xs a

  pub eq_self : (a : A) → (a == a) ≡ true
  eq_self a = (e.decides a a).1 refl

  pub includes→mem : (xs : List A) (a : A) → includes xs a ≡ true → Memᴰ a xs
  unfolding includes
  includes→mem [] a h = cc
  includes→mem (x ∷ xs) a h = elim (Bool-cases (a == x)) [
    | inl same ↦ Memᴰ.head ((e.decides a x).0 same)
    | inr other ↦ Memᴰ.tail (includes→mem xs a (rw other at h))
  ]

  pub mem→includes : {a : A} {xs : List A} → Memᴰ a xs → includes xs a ≡ true
  unfolding includes
  mem→includes {a} (Memᴰ.head {x} same) = rw ((e.decides a x).1 same)
  mem→includes {a} (Memᴰ.tail {x} {xs} m) = ground (arith, mem→includes m)

  pub includes_iff : (xs : List A) (a : A) → (includes xs a ≡ true) ↔ Memᴰ a xs
  includes_iff xs a = (includes→mem xs a, mem→includes)

  pub not-includes_iff : (xs : List A) (a : A) → (not (includes xs a) ≡ true) ↔ (Memᴰ a xs → ⊥)
  not-includes_iff xs a = elim (Bool-cases (includes xs a)) [
    | inl old ↦ rw old (λ h. cc, λ f. absurd (f (includes→mem xs a old)))
    | inr new ↦ rw new (λ h m. cc (new, mem→includes m), λ f. refl)
  ]

  pub includes-append :
      (xs ys : List A) (a : A) → includes (xs ++ ys) a ≡ (includes xs a || includes ys a)
  unfolding includes
  includes-append [] ys a = refl
  includes-append (x ∷ xs) ys a = ground (arith, includes-append xs ys a)

  -- `add` of a set, which keeps the order of insertion
  unfoldable pub set_add : List A → A → List A
  set_add xs a = if includes xs a then xs else xs ++ a ∷ []

  -- `new Set(xs)`, from the left
  unfoldable pub set_add_all : List A → List A → List A
  unfolding set_add
  set_add_all set [] = set
  set_add_all set (x ∷ xs) = set_add_all (set_add set x) xs

  pub includes-set_add :
      (xs : List A) (a b : A) → includes (set_add xs a) b ≡ (includes xs b || b == a)
  unfolding set_add includes
  includes-set_add xs a b = elim (Bool-cases (includes xs a)) [
    | inl old ↦ elim (Bool-cases (b == a)) [
      | inl same ↦ ground (arith, (e.decides b a).0 same)
      | inr other ↦ ground arith
    ]
    | inr new ↦ ground (arith, includes-append xs (a ∷ []) b)
  ]

  pub set_add-keeps :
      (xs : List A) (a b : A) → includes xs b ≡ true → includes (set_add xs a) b ≡ true
  set_add-keeps xs a b h = rw (includes-set_add, h)

  pub set_add_self : (xs : List A) (a : A) → includes (set_add xs a) a ≡ true
  set_add_self xs a = rw (includes-set_add, eq_self a) (or-true _)

  pub set_add-only :
      (xs : List A) (a b : A) → includes (set_add xs a) b ≡ true → (includes xs b ≡ true) ⊎ (b ≡ a)
  set_add-only xs a b h = elim (Bool-cases (includes xs b)) [
    | inl old ↦ inl old
    | inr new ↦ inr ((e.decides b a).0 (rw (includes-set_add, new) at h))
  ]

  pub includes-set_add_all :
      (xs ys : List A) (b : A) → includes (set_add_all xs ys) b ≡ (includes xs b || includes ys b)
  unfolding set_add_all includes
  includes-set_add_all xs [] b = ground arith
  includes-set_add_all xs (y ∷ ys) b =
      ground (arith, includes-set_add_all (set_add xs y) ys b, includes-set_add xs y b)

  -- what a set holds once a list is added to it
  pub set_add_all-mem_iff :
      (xs ys : List A) (b : A) → Memᴰ b (set_add_all xs ys) ↔ (Memᴰ b xs ⊎ Memᴰ b ys)
  set_add_all-mem_iff xs ys b = (
    λ m. elim (Bool-cases (includes xs b)) [
      | inl old ↦ inl (includes→mem xs b old)
      | inr new ↦
          inr (includes→mem ys b (ground (arith, mem→includes m, includes-set_add_all xs ys b)))
    ],
    λ s. includes→mem _ b (elim s [
      | inl m ↦ ground (arith, mem→includes m, includes-set_add_all xs ys b)
      | inr m ↦ ground (arith, mem→includes m, includes-set_add_all xs ys b)
    ]),
  )
