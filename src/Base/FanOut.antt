-- ===== src/Base/FanOut.antt =====
-- `results := make([]R, len(targets))` and one goroutine for each target that writes its own entry.
-- `order` has the indices in the order in which the goroutines run; each runs as a whole, since
-- what they share is behind mutexes.
use Prim.Native.Nat.{ℕ, zero, suc}
use mathlib.Core.Path.{◌≡◌, refl, ap, subst, ◌∙◌}
use mathlib.Core.Logic.{◌⊎◌, inl, inr}
use mathlib.Core.Bool.{true, false}
use mathlib.Core.Option.{Option, none, some}
use mathlib.Core.List.{List, [], ◌∷◌}
use native.Mathlib.Omega.{arith}
use capi_shell_mcp.Base.Lists.{All, length, contains}
use capi_shell_mcp.Base.Tests.{
  nat_beq, nat_beq_iff, nat_eq, Bool-cases, Option-cases, if◌then◌else◌,
}

module _ {ℓ} {A : Type ℓ} where
  abbrev pub get_elem? : List A → ℕ → Option A
  get_elem? [] i = none
  get_elem? (x ∷ xs) zero = some x
  get_elem? (x ∷ xs) (suc i) = get_elem? xs i

  abbrev pub set : List A → ℕ → A → List A
  set [] i v = []
  set (x ∷ xs) zero v = v ∷ xs
  set (x ∷ xs) (suc i) v = x ∷ set xs i v

  pub All-get :
      (P : A → Type 0) (xs : List A) (i : ℕ) (x : A) → All P xs → get_elem? xs i ≡ some x → P x
  All-get P [] i x h e = absurd (cc)
  All-get P (y ∷ ys) zero x (p, h) e = let same : y ≡ x = ground arith in subst P same p
  All-get P (y ∷ ys) (suc i) x (p, h) e = All-get P ys i x h e

  pub All-set : (P : A → Type 0) (xs : List A) (i : ℕ) (v : A) → All P xs → P v → All P (set xs i v)
  All-set P [] i v h p = tt
  All-set P (x ∷ xs) zero v (q, h) p = (p, h)
  All-set P (x ∷ xs) (suc i) v (q, h) p = (q, All-set P xs i v h p)

  pub length-set : (xs : List A) (i : ℕ) (v : A) → length (set xs i v) ≡ length xs
  length-set [] i v = refl
  length-set (x ∷ xs) zero v = refl
  length-set (x ∷ xs) (suc i) v = ap suc (length-set xs i v)

  -- A write changes one element, if there is one.
  pub get_elem?-set :
      (xs : List A) (i j : ℕ) (v : A)
      → get_elem? (set xs i v) j ≡ (
          if nat_beq i j
          then (elim (get_elem? xs j) [ none ↦ none | some _ ↦ some v ])
          else get_elem? xs j)
  get_elem?-set [] i j v = ground arith
  get_elem?-set (x ∷ xs) zero zero v = refl
  get_elem?-set (x ∷ xs) zero (suc j) v = ground arith
  get_elem?-set (x ∷ xs) (suc i) zero v = ground arith
  get_elem?-set (x ∷ xs) (suc i) (suc j) v = ground (arith, get_elem?-set xs i j v)

module _ {ℓ κ} {A : Type ℓ} {B : Type κ} where
  abbrev pub map_all : (A → B) → List A → List B
  map_all f [] = []
  map_all f (x ∷ xs) = f x ∷ map_all f xs

  length-map_all : (f : A → B) (xs : List A) → length (map_all f xs) ≡ length xs
  length-map_all f [] = refl
  length-map_all f (x ∷ xs) = ap suc (length-map_all f xs)

  get_elem?-map_all :
      (f : A → B) (xs : List A) (i : ℕ)
      → get_elem? (map_all f xs) i ≡ elim (get_elem? xs i) [ none ↦ none | some x ↦ some (f x) ]
  get_elem?-map_all f [] i = refl
  get_elem?-map_all f (x ∷ xs) zero = refl
  get_elem?-map_all f (x ∷ xs) (suc i) = get_elem?-map_all f xs i

todo_nil : {Q : Type 0} (i : ℕ) → (contains [] i ≡ true) ⊎ Q → Q
unfolding contains
todo_nil i (inl e) = absurd (cc)
todo_nil i (inr q) = q

todo_step :
    {Q : Type 0} (i j : ℕ) (order : List ℕ)
    → nat_beq j i ≡ false
    → (contains (j ∷ order) i ≡ true) ⊎ Q
    → (contains order i ≡ true) ⊎ Q
unfolding contains
todo_step i j order h (inl e) = inl (ground (arith, nat_beq_iff j i, nat_beq_iff i j))
todo_step i j order h (inr q) = inr q

module _ {S T R : Type 0} (task : T → S → R × S) (targets : List T) where
  unfoldable pub run_goroutines : List ℕ → List R → S → List R × S
  run_goroutines [] results s = (results, s)
  run_goroutines (i ∷ order) results s = elim (get_elem? targets i) [
    | none ↦ run_goroutines order results s
    | some t ↦ let (r, s') = task t s in run_goroutines order (set results i r) s'
  ]

  run_one :
      (i : ℕ) (order : List ℕ) (results : List R) (s : S) (t : T)
      → get_elem? targets i ≡ some t
      → run_goroutines (i ∷ order) results s
        ≡ run_goroutines order (set results i (task t s).0) (task t s).1
  unfolding run_goroutines
  run_one i order results s t h = rw (h, run_goroutines)

  run_none :
      (i : ℕ) (order : List ℕ) (results : List R) (s : S)
      → get_elem? targets i ≡ none
      → run_goroutines (i ∷ order) results s ≡ run_goroutines order results s
  unfolding run_goroutines
  run_none i order results s h = rw (h, run_goroutines)

  -- What every task gives from a state in which `I` holds, if every task keeps `I`.
  module _ (I : S → Type 0) (keeps : (t : T) (s : S) → I s → I (task t s).1) (P : T → R → Type 0)
      (each : (t : T) (s : S) → I s → P t (task t s).0) (i : ℕ) (t : T)
      (at : get_elem? targets i ≡ some t) where
    other_index : (j : ℕ) → get_elem? targets j ≡ none → nat_beq j i ≡ false
    other_index j h = elim (Bool-cases (nat_beq j i)) [
      | inl same ↦ absurd (cc ((nat_beq_iff j i).0 same))
      | inr other ↦ other
    ]

    same_target : (j : ℕ) (u : T) → get_elem? targets j ≡ some u → nat_beq j i ≡ true → u ≡ t
    same_target j u h same = cc ((nat_beq_iff j i).0 same)

    run_goroutines_each :
        (order : List ℕ) (results : List R) (s : S) (r : R)
        → I s
        → get_elem? results i ≡ some r
        → (contains order i ≡ true) ⊎ P t r
        → (r' : R) × (get_elem? (run_goroutines order results s).0 i ≡ some r') × P t r'
    run_goroutines_each [] results s r v there todo =
        unfold run_goroutines in (r, there, todo_nil i todo)
    run_goroutines_each (j ∷ order) results s r v there todo =
        elim (Option-cases (get_elem? targets j)) [
          | inl nothing ↦ rw (run_none j order results s nothing) (
              run_goroutines_each order results s r v there
                (todo_step i j order (other_index j nothing) todo))
          | inr (u, at_j) ↦ rw (run_one j order results s u at_j) (elim (Bool-cases (nat_beq j i)) [
            | inl same ↦
                run_goroutines_each order (set results j (task u s).0) (task u s).1 (task u s).0
                  (keeps u s v) (ground (arith, get_elem?-set results j i (task u s).0))
                  (inr (subst (λ x. P x (task u s).0) (same_target j u at_j same) (each u s v)))
            | inr other ↦
                run_goroutines_each order (set results j (task u s).0) (task u s).1 r (keeps u s v)
                  (ground (arith, get_elem?-set results j i (task u s).0))
                  (todo_step i j order other todo)
          ])
        ]

module _ {S T R : Type 0} (zero_value : R) (task : T → S → R × S) where
  -- The entries before the goroutines run have the zero value.
  unfoldable pub fan_out : List T → List ℕ → S → List R × S
  fan_out targets order s = run_goroutines task targets order (map_all (λ _. zero_value) targets) s

  -- Whatever the order, a goroutine that runs leaves its target's result at its target's index, and
  -- it ran in a state in which what all tasks keep held.
  pub fan_out_each_kept :
      (I : S → Type 0)
      → ((t : T) (s : S) → I s → I (task t s).1)
      → (P : T → R → Type 0) → ((t : T) (s : S) → I s → P t (task t s).0)
      → (targets : List T) (order : List ℕ) (s : S) (i : ℕ) (t : T) → I s
      → get_elem? targets i ≡ some t
      → contains order i ≡ true
      → (r : R) × (get_elem? (fan_out targets order s).0 i ≡ some r) × P t r
  unfolding fan_out
  fan_out_each_kept I keeps P each targets order s i t v at h =
      run_goroutines_each task targets I keeps P each i t at order
        (map_all (λ _. zero_value) targets) s zero_value v
        (ground (arith, get_elem?-map_all (λ (_ : T). zero_value) targets i)) (inl h)

  pub fan_out_each :
      (P : T → R → Type 0)
      → ((t : T) (s : S) → P t (task t s).0)
      → (targets : List T) (order : List ℕ) (s : S) (i : ℕ) (t : T) → get_elem? targets i ≡ some t
      → contains order i ≡ true
      → (r : R) × (get_elem? (fan_out targets order s).0 i ≡ some r) × P t r
  fan_out_each P each targets order s i t =
      fan_out_each_kept (λ _. Unit {0}) (λ _ _ _. tt) P (λ u v _. each u v) targets order s i t tt

  pub fan_out-nil : (order : List ℕ) (s : S) → fan_out [] order s ≡ ([], s)
  unfolding fan_out
  fan_out-nil order s = none_run order
    where
      none_run : (os : List ℕ) → run_goroutines task [] os [] s ≡ ([], s)
      none_run [] = unfold run_goroutines in refl
      none_run (o ∷ os) = run_none task [] o os [] s refl ∙ none_run os
