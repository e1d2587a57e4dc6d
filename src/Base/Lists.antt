-- ===== src/Base/Lists.antt =====
-- Lists measured by native numbers, selection by a Boolean test, and predicates on all entries.
use Prim.Native.Nat.{ℕ, zero, suc, ◌+◌, ◌≤◌}
use mathlib.Core.Path.{◌≡◌, refl}
use mathlib.Core.Bool.{Bool, true}
use mathlib.Core.List.{List, [], ◌∷◌, ◌++◌}
use mathlib.Core.Option.{Option, none, some}
use native.Mathlib.Omega.{arith}
use banking_platform.Base.Tests.{if◌then◌else◌}

module _ {ℓ} {A : Type ℓ} where
  abbrev pub length : List A → ℕ
  length [] = 0
  length (x ∷ xs) = suc (length xs)

  abbrev pub take : ℕ → List A → List A
  take zero xs = []
  take (suc n) [] = []
  take (suc n) (x ∷ xs) = x ∷ take n xs

  -- `rows.filter(keep)`, and `WHERE keep`.
  abbrev pub select : (A → Bool) → List A → List A
  select keep [] = []
  select keep (x ∷ xs) = let rest = select keep xs in if keep x then x ∷ rest else rest

  -- The first row that a query finds, `rows[0] || null`.
  abbrev pub find : (A → Bool) → List A → Option A
  find test [] = none
  find test (x ∷ xs) = let rest = find test xs in if test x then some x else rest

  -- `UPDATE … SET change WHERE test`.
  abbrev pub update_where : (A → Bool) → (A → A) → List A → List A
  update_where test change [] = []
  update_where test change (x ∷ xs) = (if test x then change x else x) ∷ update_where test change xs

  abbrev pub All {κ} : (A → Type κ) → List A → Type κ
  All P [] = Unit
  All P (x ∷ xs) = P x × All P xs

module _ {ℓ} {A : Type ℓ} where
  pub length-append : (xs ys : List A) → length (xs ++ ys) ≡ length xs + length ys
  length-append [] ys = omega arith
  length-append (x ∷ xs) ys = omega (arith, length-append xs ys)

  pub select-append :
      (keep : A → Bool) (xs ys : List A) → select keep (xs ++ ys) ≡ select keep xs ++ select keep ys
  select-append keep [] ys = refl
  select-append keep (x ∷ xs) ys = ground (arith, select-append keep xs ys)

  pub length-select : (keep : A → Bool) (xs : List A) → length (select keep xs) ≤ length xs
  length-select keep [] = omega arith
  length-select keep (x ∷ xs) = ground (arith, length-select keep xs)

  pub length-take : (n : ℕ) (xs : List A) → length (take n xs) ≤ n
  length-take zero xs = omega arith
  length-take (suc n) [] = omega arith
  length-take (suc n) (x ∷ xs) = omega (arith, length-take n xs)

  pub All-append {κ} : (P : A → Type κ) (xs ys : List A) → All P xs → All P ys → All P (xs ++ ys)
  All-append P [] ys hx hy = hy
  All-append P (x ∷ xs) ys hx hy = (hx.0, All-append P xs ys hx.1 hy)

  -- What a query finds, it finds again in its changed form, if the change does not matter to it.
  pub find-update_where :
      (test pick : A → Bool) (change : A → A) (xs : List A) (x : A)
      → ((y : A) → test (change y) ≡ test y)
      → pick x ≡ true
      → find test xs ≡ some x
      → find test (update_where pick change xs) ≡ some (change x)
  find-update_where test pick change [] x same picked found = ground arith
  find-update_where test pick change (y ∷ ys) x same picked found =
      ground (arith, same y, find-update_where test pick change ys x same picked)
