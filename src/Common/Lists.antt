-- ===== src/Common/Lists.antt =====
-- Lists measured and indexed by native numbers, under the library's names.
use Prim.Native.Nat.{ℕ, zero, suc, ◌+◌}
use mathlib.Core.Path.{◌≡◌, refl, sym, ap}
use mathlib.Core.List.{List, [], ◌∷◌, ◌++◌}
use mathlib.Core.Option.{Option, none, some}
use native.Mathlib.Omega.{arith}

module _ {ℓ} {A : Type ℓ} where
  abbrev pub length : List A → ℕ
  length [] = 0
  length (x ∷ xs) = suc (length xs)

  abbrev pub get_elem? : List A → ℕ → Option A
  get_elem? [] i = none
  get_elem? (x ∷ xs) zero = some x
  get_elem? (x ∷ xs) (suc i) = get_elem? xs i

  -- A write out of bounds changes nothing.
  abbrev pub set : List A → ℕ → A → List A
  set [] i v = []
  set (x ∷ xs) zero v = v ∷ xs
  set (x ∷ xs) (suc i) v = x ∷ set xs i v

  pub length-append : (xs ys : List A) → length (xs ++ ys) ≡ length xs + length ys
  length-append [] ys = omega arith
  length-append (x ∷ xs) ys = omega (arith, length-append xs ys)

  abbrev pub All {κ} : (A → Type κ) → List A → Type κ
  All P [] = Unit
  All P (x ∷ xs) = P x × All P xs

  pub set-set : (xs : List A) (i : ℕ) (v w : A) → set (set xs i v) i w ≡ set xs i w
  set-set [] i v w = refl
  set-set (x ∷ xs) zero v w = refl
  set-set (x ∷ xs) (suc i) v w = ap (λ l. x ∷ l) (set-set xs i v w)

  pub get-set :
      (xs : List A) (i : ℕ) (g v : A) → get_elem? xs i ≡ some g → get_elem? (set xs i v) i ≡ some v
  get-set [] i g v h = absurd cc
  get-set (x ∷ xs) zero g v h = refl
  get-set (x ∷ xs) (suc i) g v h = get-set xs i g v h

  pub set-get : (xs : List A) (i : ℕ) (g : A) → get_elem? xs i ≡ some g → set xs i g ≡ xs
  set-get [] i g h = refl
  set-get (x ∷ xs) zero g h = ap (λ o. elim o [ none ↦ x ∷ xs | some y ↦ y ∷ xs ]) (sym h)
  set-get (x ∷ xs) (suc i) g h = ap (λ l. x ∷ l) (set-get xs i g h)

  pub get-last : (xs : List A) (y : A) → get_elem? (xs ++ y ∷ []) (length xs) ≡ some y
  get-last [] y = refl
  get-last (x ∷ xs) y = get-last xs y

  pub set-last : (xs : List A) (y z : A) → set (xs ++ y ∷ []) (length xs) z ≡ xs ++ z ∷ []
  set-last [] y z = refl
  set-last (x ∷ xs) y z = ap (λ l. x ∷ l) (set-last xs y z)
