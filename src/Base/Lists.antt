-- ===== src/Base/Lists.antt =====
-- Lists measured by native numbers, membership and distinctness by recursion.
use Prim.Native.Nat.{ℕ, zero, suc, ◌+◌}
use mathlib.Core.Path.{◌≡◌, refl, sym, subst}
use mathlib.Core.Logic.{◌↔◌, ◌⊎◌, inl, inr}
use mathlib.Core.Bool.{Bool, true, false, ◌||◌}
use mathlib.Core.List.{List, [], ◌∷◌, ◌++◌}
use native.Mathlib.Omega.{arith}
use capi_shell_mcp.Base.Tests.{Eq, ◌==◌, if◌then◌else◌, Bool-cases}

module _ {ℓ} {A : Type ℓ} where
  abbrev pub length : List A → ℕ
  length [] = 0
  length (x ∷ xs) = suc (length xs)

  abbrev pub get_or : List A → ℕ → A → A
  get_or [] i d = d
  get_or (x ∷ xs) zero d = x
  get_or (x ∷ xs) (suc i) d = get_or xs i d

  pub length-append : (xs ys : List A) → length (xs ++ ys) ≡ length xs + length ys
  length-append [] ys = omega arith
  length-append (x ∷ xs) ys = omega (arith, length-append xs ys)

module _ {A : Type 0} where
  abbrev pub Elem : A → List A → Type 0
  Elem a [] = ⊥
  Elem a (x ∷ xs) = (a ≡ x) ⊎ Elem a xs

  abbrev pub Distinct : List A → Type 0
  Distinct [] = Unit
  Distinct (x ∷ xs) = ¬ (Elem x xs) × Distinct xs

  -- Some element of the list has the property.
  abbrev pub AnyOf : (A → Type 0) → List A → Type 0
  AnyOf P [] = ⊥
  AnyOf P (x ∷ xs) = P x ⊎ AnyOf P xs

  pub Elem-append : (a : A) (xs ys : List A) → Elem a (xs ++ ys) ↔ (Elem a xs ⊎ Elem a ys)
  Elem-append a [] ys = ground arith
  Elem-append a (x ∷ xs) ys = ground (arith, Elem-append a xs ys)

module _ {ℓ κ} {A : Type ℓ} where
  abbrev pub All : (A → Type κ) → List A → Type κ
  All P [] = Unit
  All P (x ∷ xs) = P x × All P xs

  pub All-append : (P : A → Type κ) (xs ys : List A) → All P xs → All P ys → All P (xs ++ ys)
  All-append P [] ys hx hy = hy
  All-append P (x ∷ xs) ys (px, hx) hy = (px, All-append P xs ys hx hy)

module _ {κ} {A : Type 0} where
  pub All-Elem : (P : A → Type κ) (xs : List A) (a : A) → All P xs → Elem a xs → P a
  All-Elem P [] a h m = absurd m
  All-Elem P (x ∷ xs) a (px, h) (inl e) = subst P (sym e) px
  All-Elem P (x ∷ xs) a (px, h) (inr m) = All-Elem P xs a h m

-- slices.Contains
module _ {A : Type 0} ⦃e : Eq A⦄ where
  unfoldable pub contains : List A → A → Bool
  contains [] a = false
  contains (x ∷ xs) a = a == x || contains xs a

  pub contains-append :
      (xs ys : List A) (a : A) → contains (xs ++ ys) a ≡ contains xs a || contains ys a
  unfolding contains
  contains-append [] ys a = refl
  contains-append (x ∷ xs) ys a = ground (arith, contains-append xs ys a)

  -- The elements of the second list that are not in the first.
  unfoldable pub without : List A → List A → List A
  unfolding contains
  without xs [] = []
  without xs (y ∷ ys) = let rest = without xs ys in if contains xs y then rest else y ∷ rest

  -- The first of equal elements.
  unfoldable pub nub : List A → List A
  unfolding without
  nub [] = []
  nub (x ∷ xs) = x ∷ without (x ∷ []) (nub xs)

  pub contains_iff : (xs : List A) (a : A) → (contains xs a ≡ true) ↔ Elem a xs
  unfolding contains
  contains_iff [] a = ground arith
  contains_iff (x ∷ xs) a = ground (arith, e.beq_iff a x, contains_iff xs a)

  pub without-append : (xs zs ys : List A) → without (xs ++ zs) ys ≡ without xs (without zs ys)
  unfolding without
  without-append xs zs [] = refl
  without-append xs zs (y ∷ ys) = ground (arith, without-append xs zs ys, contains-append xs zs y)

  pub without-nil : (ys : List A) → without [] ys ≡ ys
  unfolding without
  without-nil [] = refl
  without-nil (y ∷ ys) = rw (without-nil ys)

  -- Taking a member out again changes nothing.
  pub without-without_member :
      (xs : List A) (x : A) (ys : List A)
      → contains xs x ≡ true
      → without xs (without (x ∷ []) ys) ≡ without xs ys
  unfolding without
  without-without_member xs x [] h = refl
  without-without_member xs x (y ∷ ys) h =
      ground (arith, without-without_member xs x ys h, e.beq_iff y x)

  pub Elem-without : (xs ys : List A) (a : A) → Elem a (without xs ys) ↔ (Elem a ys × ¬ (Elem a xs))
  unfolding without
  Elem-without xs [] a = ground arith
  Elem-without xs (y ∷ ys) a = ground (arith, Elem-without xs ys a, contains_iff xs y)

  pub without-Distinct : (xs ys : List A) → Distinct ys → Distinct (without xs ys)
  unfolding without
  without-Distinct xs [] h = tt
  without-Distinct xs (y ∷ ys) h = ground (arith, without-Distinct xs ys h.1, Elem-without xs ys y)

  pub nub-Distinct : (xs : List A) → Distinct (nub xs)
  unfolding nub
  nub-Distinct [] = tt
  nub-Distinct (x ∷ xs) = (
    λ m. ((Elem-without (x ∷ []) (nub xs) x).0 m).1 (inl refl),
    without-Distinct (x ∷ []) (nub xs) (nub-Distinct xs),
  )

  pub Elem-nub : (xs : List A) (a : A) → Elem a (nub xs) ↔ Elem a xs
  unfolding nub
  Elem-nub [] a = ground arith
  Elem-nub (x ∷ xs) a =
      ground
        (arith, Elem-nub xs a, Elem-without (x ∷ []) (nub xs) a, e.beq_iff a x, Bool-cases (a == x))
