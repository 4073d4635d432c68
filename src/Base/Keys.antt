-- ===== src/Base/Keys.antt =====
-- A table whose rows have different keys: what INSERT and UPDATE keep, and how many rows a key has.
use Prim.Native.Nat.{◌+◌, ◌≤◌}
use Prim.Native.String.{String}
use expediente.Base.Rows.{All, All-map, count_rows, find_row, update_rows, updated}
use expediente.Base.Tests.{Bool-cases, ◌==◌, String_eq}
use mathlib.Core.Bool.{Bool, true, false}
use mathlib.Core.List.{List, [], ◌∷◌, ◌++◌}
use mathlib.Core.Option.{none, some}
use mathlib.Core.Logic.{inl, inr, ◌≢◌, ◌⊎◌}
use mathlib.Core.Path.{◌≡◌, refl, sym, ◌∙◌}
use native.Mathlib.Omega.{arith}

module _ {ℓ} {A : Type ℓ} where
  pub All-of {κ} : (P : A → Type κ) (xs : List A) → ((x : A) → P x) → All P xs
  All-of P [] h = tt
  All-of P (x ∷ xs) h = (h x, All-of P xs h)

  pub All-both {κ μ} :
      (P : A → Type κ) (Q : A → Type μ) (xs : List A)
      → All P xs
      → All Q xs
      → All (λ x. P x × Q x) xs
  All-both P Q [] a b = tt
  All-both P Q (x ∷ xs) a b = ((a.0, b.0), All-both P Q xs a.1 b.1)

  -- What an UPDATE makes of the rows that satisfy one predicate satisfies another.
  pub All-updated {κ μ} :
      (P : A → Type κ) (Q : A → Type μ) (q : A → Bool) (f : A → A) (xs : List A)
      → ((x : A) → P x → Q (updated q f x))
      → All P xs
      → All Q (update_rows q f xs)
  unfolding update_rows
  All-updated P Q q f [] h a = tt
  All-updated P Q q f (x ∷ xs) h a = (h x a.0, All-updated P Q q f xs h a.1)

  -- No row satisfies the condition.
  pub count_rows-none :
      (p : A → Bool) (xs : List A) → All (λ x. p x ≡ false) xs → count_rows p xs ≡ 0
  unfolding count_rows
  count_rows-none p [] a = refl
  count_rows-none p (x ∷ xs) a = rw a.0 (omega (arith, count_rows-none p xs a.1))

  -- Rows that satisfy the one condition satisfied the other, or satisfied the third before.
  pub count_rows-updated_le :
      (p q b : A → Bool) (f : A → A) (xs : List A)
      → All (λ x. p (updated q f x) ≡ true → (p x ≡ true) ⊎ (b x ≡ true)) xs
      → count_rows p (update_rows q f xs) ≤ count_rows p xs + count_rows b xs
  unfolding count_rows update_rows
  count_rows-updated_le p q b f [] a = omega arith
  count_rows-updated_le p q b f (x ∷ xs) a =
      let ih = count_rows-updated_le p q b f xs a.1 in
      elim (Bool-cases (p (updated q f x))) [
        | inr e ↦ rw e (ground (arith, ih))
        | inl e ↦ elim (a.0 e) [
          | inl h ↦ rw (e, h) (omega (arith, ih))
          | inr h ↦ ground (arith, ih)
        ]
      ]

  -- Rows that satisfy the condition satisfied it before.
  pub count_rows-updated_mono :
      (p q : A → Bool) (f : A → A) (xs : List A)
      → All (λ x. p (updated q f x) ≡ true → p x ≡ true) xs
      → count_rows p (update_rows q f xs) ≤ count_rows p xs
  unfolding count_rows update_rows
  count_rows-updated_mono p q f [] a = omega arith
  count_rows-updated_mono p q f (x ∷ xs) a =
      ground (arith, a.0, count_rows-updated_mono p q f xs a.1)

  pub count_rows-find_row :
      (p : A → Bool) (xs : List A) → find_row p xs ≡ none → count_rows p xs ≡ 0
  unfolding count_rows find_row
  count_rows-find_row p [] h = refl
  count_rows-find_row p (x ∷ xs) h = elim (Bool-cases (p x)) [
    | inl e ↦ absurd (ground arith)
    | inr e ↦ rw e (omega (arith, count_rows-find_row p xs (ground arith)))
  ]

  pub count_rows-found :
      (p : A → Bool) (xs : List A) {x : A} → find_row p xs ≡ some x → 1 ≤ count_rows p xs
  unfolding count_rows find_row
  count_rows-found p [] h = absurd (cc)
  count_rows-found p (x ∷ xs) h = elim (Bool-cases (p x)) [
    | inl e ↦ rw e (omega arith)
    | inr e ↦ rw e (omega (arith, count_rows-found p xs (let k = rw e at h in k)))
  ]

module _ {ℓ} {A : Type ℓ} (key : A → String) where
  abbrev pub Unique : List A → Type ℓ
  Unique [] = Unit
  Unique (x ∷ xs) = All (λ y. key y ≢ key x) xs × Unique xs

  pub Unique-update_rows :
      (q : A → Bool) (f : A → A) (xs : List A)
      → All (λ x. key (updated q f x) ≡ key x) xs
      → Unique xs
      → Unique (update_rows q f xs)
  unfolding update_rows
  Unique-update_rows q f [] h u = tt
  Unique-update_rows q f (x ∷ xs) h u = (
    rw h.0 (
        All-updated (λ y. (key (updated q f y) ≡ key y) × (key y ≢ key x)) (λ y. key y ≢ key x) q f
          xs (λ y k e. k.1 (sym k.0 ∙ e)) (All-both _ (λ y. key y ≢ key x) xs h.1 u.0)),
    Unique-update_rows q f xs h.1 u.1,
  )

  pub Unique-append :
      (xs : List A) (z : A) → All (λ y. key y ≢ key z) xs → Unique xs → Unique (xs ++ (z ∷ []))
  Unique-append [] z a u = (tt, tt)
  Unique-append (x ∷ xs) z a u = (differs xs u.0, Unique-append xs z a.1 u.1)
    where
      differs :
          (ys : List A) → All (λ y. key y ≢ key x) ys → All (λ y. key y ≢ key x) (ys ++ (z ∷ []))
      differs [] b = ((λ e. a.0 (sym e)), tt)
      differs (y ∷ ys) b = (b.0, differs ys b.1)

  -- A row with the key of a row of the table is that row.
  pub Unique-same : (xs : List A) → Unique xs → All (λ c. All (λ x. key x ≡ key c → x ≡ c) xs) xs
  Unique-same [] u = tt
  Unique-same (x ∷ xs) u = (
    ((λ e. refl), All-map (λ y. key y ≢ key x) _ xs (λ y n e. absurd (n e)) u.0),
    All-map (λ c. (key c ≢ key x) × All (λ y. key y ≡ key c → y ≡ c) xs) _ xs
        (λ c h. ((λ e. absurd (h.0 (sym e))), h.1))
        (All-both (λ c. key c ≢ key x) _ xs u.0 (Unique-same xs u.1)),
  )

  pub count_rows-key : (k : String) (xs : List A) → Unique xs → count_rows (λ x. key x == k) xs ≤ 1
  unfolding count_rows
  count_rows-key k [] u = omega arith
  count_rows-key k (x ∷ xs) u = elim (Bool-cases (key x == k)) [
    | inr e ↦ rw e (omega (arith, count_rows-key k xs u.1))
    | inl e ↦
        let same = (String_eq.beq_iff (key x) k).0 e in
        let others =
          count_rows-none (λ y. key y == k) xs
            (All-map (λ y. key y ≢ key x) _ xs
              (λ y n. ground (arith, String_eq.beq_iff (key y) k, n, same)) u.0) in
        rw (e, others) (omega arith)
  ]
