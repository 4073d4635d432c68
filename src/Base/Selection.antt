-- ===== src/Base/Selection.antt =====
-- The queries with ORDER BY and LIMIT: the rows of a table that a condition selects, sorted by an
-- insertion sort, and the first of them. What holds of every row holds of every row selected.
use expediente.Base.Rows.{All}
use expediente.Base.Tests.{if◌then◌else◌, Bool-cases}
use Prim.Native.Nat.{ℕ, zero, suc}
use mathlib.Core.Bool.{Bool, true}
use mathlib.Core.List.{List, [], ◌∷◌}
use mathlib.Core.Path.{◌≡◌}
use mathlib.Core.Logic.{inl, inr}

module _ {ℓ} {A : Type ℓ} where
  unfoldable pub select : (A → Bool) → List A → List A
  select p [] = []
  select p (x ∷ xs) = let rest = select p xs in if p x then x ∷ rest else rest

  unfoldable pub take : ℕ → List A → List A
  take zero xs = []
  take (suc n) [] = []
  take (suc n) (x ∷ xs) = x ∷ take n xs

  -- `before x y` is true where `x` may stand in front of `y`.
  unfoldable pub insert_sorted : (A → A → Bool) → A → List A → List A
  insert_sorted before x [] = x ∷ []
  insert_sorted before x (y ∷ ys) =
      let rest = insert_sorted before x ys in if before x y then x ∷ y ∷ ys else y ∷ rest

  unfoldable pub order_by : (A → A → Bool) → List A → List A
  unfolding insert_sorted
  order_by before [] = []
  order_by before (x ∷ xs) = insert_sorted before x (order_by before xs)

  module _ {κ} (P : A → Type κ) where
    pub All-take : (n : ℕ) (xs : List A) → All P xs → All P (take n xs)
    unfolding take
    All-take zero xs a = tt
    All-take (suc n) [] a = tt
    All-take (suc n) (x ∷ xs) a = (a.0, All-take n xs a.1)

    pub All-insert_sorted :
        (before : A → A → Bool) (x : A) (xs : List A)
        → P x
        → All P xs
        → All P (insert_sorted before x xs)
    unfolding insert_sorted
    All-insert_sorted before x [] p a = (p, tt)
    All-insert_sorted before x (y ∷ ys) p a = elim (Bool-cases (before x y)) [
      | inl e ↦ rw e (p, (a.0, a.1))
      | inr e ↦ rw e (a.0, All-insert_sorted before x ys p a.1)
    ]

    pub All-order_by : (before : A → A → Bool) (xs : List A) → All P xs → All P (order_by before xs)
    unfolding order_by
    All-order_by before [] a = tt
    All-order_by before (x ∷ xs) a =
        All-insert_sorted before x (order_by before xs) a.0 (All-order_by before xs a.1)

    -- The rows selected satisfy the condition as well.
    pub All-select :
        (p : A → Bool) (xs : List A) → All P xs → All (λ x. (p x ≡ true) × P x) (select p xs)
    unfolding select
    All-select p [] a = tt
    All-select p (x ∷ xs) a = elim (Bool-cases (p x)) [
      | inl e ↦ rw e ((e, a.0), All-select p xs a.1)
      | inr e ↦ rw e (All-select p xs a.1)
    ]
