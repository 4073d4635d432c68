-- ===== src/Base/Rows.antt =====
-- A table as the list of its rows, with the statements that the queries of the code make:
-- SELECT of one row, SELECT count(*), UPDATE … WHERE and DELETE … WHERE.
use Prim.Native.Nat.{ℕ, suc, ◌+◌, ◌≤◌}
use mathlib.Core.Bool.{Bool, true, false}
use mathlib.Core.List.{List, [], ◌∷◌, ◌++◌}
use mathlib.Core.Option.{Option, none, some}
use mathlib.Core.Option
use mathlib.Core.Path.{◌≡◌, refl, ap, subst}
use native.Mathlib.Omega.{arith}
use mathlib.Core.Logic.{inl, inr}
use expediente.Base.Tests.{if◌then◌else◌, Bool-cases}

module _ {ℓ} {A : Type ℓ} where
  abbrev pub length : List A → ℕ
  length [] = 0
  length (x ∷ xs) = suc (length xs)

  -- The first row that satisfies the condition.
  unfoldable pub find_row : (A → Bool) → List A → Option A
  find_row p [] = none
  find_row p (x ∷ xs) = if p x then some x else find_row p xs

  unfoldable pub count_rows : (A → Bool) → List A → ℕ
  count_rows p [] = 0
  count_rows p (x ∷ xs) = (if p x then 1 else 0) + count_rows p xs

  -- What an UPDATE makes of one row.
  abbrev pub updated : (A → Bool) → (A → A) → A → A
  updated p f x = if p x then f x else x

  unfoldable pub update_rows : (A → Bool) → (A → A) → List A → List A
  update_rows p f [] = []
  update_rows p f (x ∷ xs) = updated p f x ∷ update_rows p f xs

  unfoldable pub delete_rows : (A → Bool) → List A → List A
  delete_rows p [] = []
  delete_rows p (x ∷ xs) = let rest = delete_rows p xs in if p x then rest else x ∷ rest

  -- Every row satisfies the predicate.
  abbrev pub All {κ} : (A → Type κ) → List A → Type κ
  All P [] = Unit
  All P (x ∷ xs) = P x × All P xs

  pub find_row_sound : (p : A → Bool) (xs : List A) {x : A} → find_row p xs ≡ some x → p x ≡ true
  unfolding find_row
  find_row_sound p [] h = cc
  find_row_sound p (y ∷ ys) {x} h = elim (Bool-cases (p y)) [
    | inl e ↦ ground arith
    | inr e ↦ find_row_sound p ys (ground arith)
  ]

  pub find_row-update_rows :
      (p q : A → Bool) (f : A → A) (xs : List A)
      → ((x : A) → p (updated q f x) ≡ p x)
      → find_row p (update_rows q f xs) ≡ Option.map (updated q f) (find_row p xs)
  unfolding find_row update_rows
  find_row-update_rows p q f [] h = refl
  find_row-update_rows p q f (x ∷ xs) h = elim (Bool-cases (p x)) [
    | inl e ↦ rw (h x, e)
    | inr e ↦ rw (h x, e) (find_row-update_rows p q f xs h)
  ]

  pub find_row-append :
      (p : A → Bool) (xs ys : List A) → find_row p xs ≡ none → find_row p (xs ++ ys) ≡ find_row p ys
  unfolding find_row
  find_row-append p [] ys h = refl
  find_row-append p (x ∷ xs) ys h = elim (Bool-cases (p x)) [
    | inl e ↦ ground arith
    | inr e ↦ rw e (find_row-append p xs ys (ground arith))
  ]

  pub find_row-append_left :
      (p : A → Bool) (xs ys : List A) {x : A}
      → find_row p xs ≡ some x
      → find_row p (xs ++ ys) ≡ some x
  unfolding find_row
  find_row-append_left p [] ys h = cc
  find_row-append_left p (y ∷ xs) ys h = elim (Bool-cases (p y)) [
    | inl e ↦ ground arith
    | inr e ↦ rw e (find_row-append_left p xs ys (ground arith))
  ]

  pub count_rows-update_rows :
      (p q : A → Bool) (f : A → A) (xs : List A)
      → ((x : A) → p (updated q f x) ≡ p x)
      → count_rows p (update_rows q f xs) ≡ count_rows p xs
  unfolding count_rows update_rows
  count_rows-update_rows p q f [] h = refl
  count_rows-update_rows p q f (x ∷ xs) h = rw (h x, count_rows-update_rows p q f xs h)

  pub count_rows-update_rows_le :
      (p q : A → Bool) (f : A → A) (xs : List A)
      → ((x : A) → p (updated q f x) ≡ true → p x ≡ true)
      → count_rows p (update_rows q f xs) ≤ count_rows p xs
  unfolding count_rows update_rows
  count_rows-update_rows_le p q f [] h = omega arith
  count_rows-update_rows_le p q f (x ∷ xs) h =
      ground (arith, h x, count_rows-update_rows_le p q f xs h)

  pub count_rows-update_rows_ge :
      (p q : A → Bool) (f : A → A) (xs : List A)
      → ((x : A) → p x ≡ true → p (updated q f x) ≡ true)
      → count_rows p xs ≤ count_rows p (update_rows q f xs)
  unfolding count_rows update_rows
  count_rows-update_rows_ge p q f [] h = omega arith
  count_rows-update_rows_ge p q f (x ∷ xs) h =
      ground (arith, h x, count_rows-update_rows_ge p q f xs h)

  pub count_rows-append :
      (p : A → Bool) (xs ys : List A) → count_rows p (xs ++ ys) ≡ count_rows p xs + count_rows p ys
  unfolding count_rows
  count_rows-append p [] ys = omega arith
  count_rows-append p (x ∷ xs) ys = omega (arith, count_rows-append p xs ys)

  pub All-update_rows {κ} :
      (P : A → Type κ) (q : A → Bool) (f : A → A) (xs : List A)
      → ((x : A) → P x → P (updated q f x))
      → All P xs
      → All P (update_rows q f xs)
  unfolding update_rows
  All-update_rows P q f [] h a = tt
  All-update_rows P q f (x ∷ xs) h a = (h x a.0, All-update_rows P q f xs h a.1)

  pub All-append {κ} : (P : A → Type κ) (xs ys : List A) → All P xs → All P ys → All P (xs ++ ys)
  All-append P [] ys a b = b
  All-append P (x ∷ xs) ys a b = (a.0, All-append P xs ys a.1 b)

  pub All-find_row {κ} :
      (P : A → Type κ) (p : A → Bool) (xs : List A) {x : A}
      → All P xs
      → find_row p xs ≡ some x
      → P x
  unfolding find_row
  All-find_row P p [] a h = absurd (cc)
  All-find_row P p (y ∷ ys) {x} a h = elim (Bool-cases (p y)) [
    | inl e ↦ subst P (ground arith) a.0
    | inr e ↦ All-find_row P p ys a.1 (ground arith)
  ]

  -- An UPDATE that finds no row.
  pub update_rows-none :
      (p : A → Bool) (f : A → A) (xs : List A) → find_row p xs ≡ none → update_rows p f xs ≡ xs
  unfolding find_row update_rows
  update_rows-none p f [] h = refl
  update_rows-none p f (x ∷ xs) h = elim (Bool-cases (p x)) [
    | inl e ↦ absurd (ground arith)
    | inr e ↦ rw e (ap (◌∷◌ x) (update_rows-none p f xs (ground arith)))
  ]

  pub find_row-none :
      (p : A → Bool) (xs : List A) → All (λ x. p x ≡ false) xs → find_row p xs ≡ none
  unfolding find_row
  find_row-none p [] a = refl
  find_row-none p (x ∷ xs) a = rw a.0 (find_row-none p xs a.1)

  pub All-map {κ μ} :
      (P : A → Type κ) (Q : A → Type μ) (xs : List A) → ((x : A) → P x → Q x) → All P xs → All Q xs
  All-map P Q [] h a = tt
  All-map P Q (x ∷ xs) h a = (h x a.0, All-map P Q xs h a.1)

module _ {ℓ} {A : Type ℓ} where
  -- The row is one of the table's.
  pub data Among (x : A) : List A → Type ℓ where
    here : (xs : List A) → Among x (x ∷ xs)
    there : (y : A) (xs : List A) → Among x xs → Among x (y ∷ xs)

  pub find_row-Among : (p : A → Bool) (xs : List A) {x : A} → find_row p xs ≡ some x → Among x xs
  unfolding find_row
  find_row-Among p [] h = cc
  find_row-Among p (y ∷ ys) {x} h = elim (Bool-cases (p y)) [
    | inl e ↦
        let same : y ≡ x = (let k = rw e at h in cc) in subst (λ z. Among z (y ∷ ys)) same (here ys)
    | inr e ↦ there y ys (find_row-Among p ys (let k = rw e at h in k))
  ]

  pub last-Among : (xs : List A) (x : A) → Among x (xs ++ (x ∷ []))
  last-Among [] x = here []
  last-Among (y ∷ ys) x = there y (ys ++ (x ∷ [])) (last-Among ys x)
