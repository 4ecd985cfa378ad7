-- ===== src/Base/Sort.antt =====
-- ORDER BY and Python's `sorted`: a stable insertion sort.
use Prim.Native.Nat.{ℕ, suc}
use mathlib.Core.Path.{◌≡◌, refl, ap, ◌∙◌}
use mathlib.Core.Bool.{Bool, false}
use mathlib.Core.Logic.{inl, inr, ◌⊎◌}
use mathlib.Core.List.{List, [], ◌∷◌}
use native.Mathlib.Omega.{arith}
use quant_stock.Base.Tests.{if◌then◌else◌, Bool-cases}
use quant_stock.Base.Tables.{count, In, here, there}
use quant_stock.Base.Order.{IsOrder}

module _ {ℓ} {A : Type ℓ} where
  -- a row goes before the first row that does not precede it
  unfoldable pub place : (A → A → Bool) → A → List A → List A
  place before x [] = x ∷ []
  place before x (y ∷ ys) =
      let rest = place before x ys in if before y x then y ∷ rest else x ∷ y ∷ ys

  unfoldable pub sort : (A → A → Bool) → List A → List A
  sort before [] = []
  sort before (x ∷ xs) = place before x (sort before xs)

  -- no row precedes one that stands before it
  abbrev pub IsSorted : (A → A → Bool) → List A → Type ℓ
  IsSorted before [] = Unit
  IsSorted before (x ∷ xs) = ((y : A) → In y xs → before y x ≡ false) × IsSorted before xs

module _ {ℓ} {A : Type ℓ} (before : A → A → Bool) where
  count-place :
      (p : A → Bool) (x : A) (ys : List A) → count p (place before x ys) ≡ count p (x ∷ ys)
  unfolding place count
  count-place p x [] = refl
  count-place p x (y ∷ ys) = elim (Bool-cases (before y x)) [
    | inl less ↦ rw (less, count-place p x ys) (swap (p x) (p y))
    | inr more ↦ rw more
  ]
    where
      swap :
          (a b : Bool)
          → (if b
              then suc (if a then suc (count p ys) else count p ys)
              else (if a then suc (count p ys) else count p ys))
            ≡ (if a
                then suc (if b then suc (count p ys) else count p ys)
                else (if b then suc (count p ys) else count p ys))
      swap a b = ground arith

  -- Sorting keeps every row as often as it is there.
  pub count-sort : (p : A → Bool) (xs : List A) → count p (sort before xs) ≡ count p xs
  unfolding sort count
  count-sort p [] = refl
  count-sort p (x ∷ xs) =
      count-place p x (sort before xs) ∙ ap (λ (n : ℕ). if p x then suc n else n) (count-sort p xs)

  In-place : {a x : A} (ys : List A) → In a (place before x ys) → (a ≡ x) ⊎ In a ys
  unfolding place
  In-place [] (here e) = inl e
  In-place [] (there m) = inr m
  In-place {a} {x} (y ∷ ys) m = elim (Bool-cases (before y x)) [
    | inl less ↦ elim (head_or (rw less at m)) [
      | inl e ↦ inr (here e)
      | inr r ↦ elim (In-place ys r) [ inl e ↦ inl e | inr r' ↦ inr (there r') ]
    ]
    | inr more ↦ head_or (rw more at m)
  ]
    where
      head_or : {b : A} {zs : List A} → In a (b ∷ zs) → (a ≡ b) ⊎ In a zs
      head_or (here e) = inl e
      head_or (there r) = inr r

  pub In-sort : {a : A} (xs : List A) → In a (sort before xs) → In a xs
  unfolding sort
  In-sort [] m = m
  In-sort (x ∷ xs) m = elim (In-place (sort before xs) m) [
    | inl e ↦ here e
    | inr r ↦ there (In-sort xs r)
  ]

  place-In_self : (x : A) (ys : List A) → In x (place before x ys)
  unfolding place
  place-In_self x [] = here refl
  place-In_self x (y ∷ ys) = elim (Bool-cases (before y x)) [
    | inl less ↦ rw less (there (place-In_self x ys))
    | inr more ↦ rw more (here refl)
  ]

  place-In : {a : A} (x : A) {ys : List A} → In a ys → In a (place before x ys)
  unfolding place
  place-In x (here {x = y} {xs = ys} e) = elim (Bool-cases (before y x)) [
    | inl less ↦ rw less (here e)
    | inr more ↦ rw more (there (here e))
  ]
  place-In x (there {x = y} {xs = ys} m) = elim (Bool-cases (before y x)) [
    | inl less ↦ rw less (there (place-In x m))
    | inr more ↦ rw more (there (there m))
  ]

  pub sort-In : {a : A} {xs : List A} → In a xs → In a (sort before xs)
  unfolding sort
  sort-In (here {x = x} {xs = xs} e) = rw e (place-In_self x (sort before xs))
  sort-In (there {x = x} {xs = xs} m) = place-In x (sort-In m)

  place-IsSorted :
      (o : IsOrder before) (x : A) (ys : List A)
      → IsSorted before ys
      → IsSorted before (place before x ys)
  unfolding place
  place-IsSorted o x [] s = (λ y m. elim m [ ], tt)
  place-IsSorted o x (y ∷ ys) s = elim (Bool-cases (before y x)) [
    | inl less ↦ rw less (
      λ z m. elim (In-place ys m) [ inl e ↦ rw e (o.asym y x less) | inr r ↦ s.0 z r ],
      place-IsSorted o x ys s.1,
    )
    | inr more ↦ rw more (λ z m. later more m, s)
  ]
    where
      later : {z : A} → before y x ≡ false → In z (y ∷ ys) → before z x ≡ false
      later more (here e) = rw e more
      later {z} more (there m) = o.not_trans z y x (s.0 z m) more

  pub sort-IsSorted : IsOrder before → (xs : List A) → IsSorted before (sort before xs)
  unfolding sort
  sort-IsSorted o [] = tt
  sort-IsSorted o (x ∷ xs) = place-IsSorted o x (sort before xs) (sort-IsSorted o xs)
