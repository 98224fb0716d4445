-- ===== src/Base/Lists.antt =====
-- Lists measured by native numbers, and what holds of all their items.
use Prim.Native.Nat.{ℕ, suc, zero, ◌+◌}
use mathlib.Core.Path.{◌≡◌, refl}
use mathlib.Core.Bool.{Bool, true, false, ◌&&◌, and-eq-true_iff}
use mathlib.Core.Logic.{◌↔◌}
use mathlib.Core.List.{List, [], ◌∷◌, ◌++◌, Memᴰ}
use native.Mathlib.Omega.{arith}

module _ {ℓ} {A : Type ℓ} where
  abbrev pub length : List A → ℕ
  length [] = 0
  length (x ∷ xs) = suc (length xs)

  -- `xs.slice(0, n)`
  abbrev pub take : ℕ → List A → List A
  take zero xs = []
  take (suc n) [] = []
  take (suc n) (x ∷ xs) = x ∷ take n xs

  abbrev pub drop : ℕ → List A → List A
  drop zero xs = xs
  drop (suc n) [] = []
  drop (suc n) (x ∷ xs) = drop n xs

  pub length-append : (xs ys : List A) → length (xs ++ ys) ≡ length xs + length ys
  length-append [] ys = omega arith
  length-append (x ∷ xs) ys = omega (arith, length-append xs ys)

  -- `xs.every(p)`
  abbrev pub every : (A → Bool) → List A → Bool
  every p [] = true
  every p (x ∷ xs) = p x && every p xs

  -- `xs.filter(p)`
  abbrev pub keep : (A → Bool) → List A → List A
  keep p [] = []
  keep p (x ∷ xs) = let rest = keep p xs in elim (p x) [ true ↦ x ∷ rest | false ↦ rest ]

module _ {ℓ κ} {A : Type ℓ} (P : A → Type κ) where
  abbrev pub All : List A → Type κ
  All [] = Unit
  All (x ∷ xs) = P x × All xs

pub All-of_mem {ℓ κ} :
    {A : Type ℓ} {P : A → Type κ} (xs : List A) → ((a : A) → Memᴰ a xs → P a) → All P xs
All-of_mem [] f = tt
All-of_mem (x ∷ xs) f = (f x (Memᴰ.head refl), All-of_mem xs (λ a m. f a (Memᴰ.tail m)))

pub All-imp {ℓ κ μ} :
    {A : Type ℓ} {P : A → Type κ} {Q : A → Type μ}
    → ((a : A) → P a → Q a)
    → (xs : List A) → All P xs
    → All Q xs
All-imp f [] h = tt
All-imp f (x ∷ xs) (p, h) = (f x p, All-imp f xs h)

module _ {ℓ κ} {A : Type ℓ} {P : A → Type κ} {p : A → Bool}
    (agree : (a : A) → (p a ≡ true) ↔ P a) where
  pub every_iff : (xs : List A) → (every p xs ≡ true) ↔ All P xs
  every_iff [] = (λ _. tt, λ _. refl)
  every_iff (x ∷ xs) =
      let (to, from) = every_iff xs in
      (
        λ h. let (a, b) = (and-eq-true_iff _ _).0 h in ((agree x).0 a, to b),
        λ (a, b). (and-eq-true_iff _ _).1 ((agree x).1 a, from b),
      )
