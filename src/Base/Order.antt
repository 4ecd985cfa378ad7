-- ===== src/Base/Order.antt =====
-- ORDER BY ... LIMIT 1: a row that no other row precedes, the earliest in the table among equals.
use mathlib.Core.Path.{◌≡◌, refl, sym, ◌∙◌}
use mathlib.Core.Bool.{Bool, true, false}
use mathlib.Core.Option.{Option, none, some}
use mathlib.Core.Logic.{inl, inr, ◌⊎◌}
use mathlib.Core.List.{List, [], ◌∷◌}
use quant_stock.Base.Tests.{if◌then◌else◌, Bool-cases, Option-cases}
use quant_stock.Base.Tables.{In, here, there}

-- the better of a row and the best of the rows behind it
abbrev pub better {ℓ} : {A : Type ℓ} → (A → A → Bool) → A → Option A → Option A
better before x none = some x
better before x (some y) = if before y x then some y else some x

unfoldable pub best {ℓ} : {A : Type ℓ} → (A → A → Bool) → List A → Option A
best before [] = none
best before (x ∷ xs) = better before x (best before xs)

-- a strict order in which "not before" is transitive, as for ORDER BY keys
pub record IsOrder {ℓ} {A : Type ℓ} (before : A → A → Bool) : Type ℓ where
  pub irrefl : (x : A) → before x x ≡ false
  pub asym : (x y : A) → before x y ≡ true → before y x ≡ false
  pub not_trans : (x y z : A) → before x y ≡ false → before y z ≡ false → before x z ≡ false

module _ {ℓ} {A : Type ℓ} (before : A → A → Bool) where
  better-cases :
      (x : A) (o : Option A) {m : A}
      → better before x o ≡ some m
      → ((m ≡ x) × ((y : A) → o ≡ some y → before y x ≡ false))
        ⊎ ((o ≡ some m) × (before m x ≡ true))
  better-cases x none h = inl (cc, λ y e. cc)
  better-cases x (some y) h = elim (Bool-cases (before y x)) [
    | inl less ↦
        let e : some y ≡ some _ = rw less at h in let same : y ≡ _ = cc in inr (e, rw same at less)
    | inr more ↦
        let e : some x ≡ some _ = rw more at h in
        inl (cc, λ z q. let same : y ≡ z = cc in rw same at more)
  ]

  pub best-In : (xs : List A) {m : A} → best before xs ≡ some m → In m xs
  unfolding best
  best-In [] h = cc
  best-In (x ∷ xs) h = elim (better-cases x (best before xs) h) [
    | inl (e, _) ↦ here e
    | inr (e, _) ↦ there (best-In xs e)
  ]

  best-some : (x : A) (o : Option A) → (m : A) × (better before x o ≡ some m)
  best-some x none = (x, refl)
  best-some x (some y) = elim (Bool-cases (before y x)) [
    | inl less ↦ (y, rw less)
    | inr more ↦ (x, rw more)
  ]

  pub best-eq_none : {x : A} {xs : List A} → best before xs ≡ none → ¬ In x xs
  unfolding best
  best-eq_none h (here {x = y} {xs = ys} e) =
      let (m, found) = best-some y (best before ys) in cc found
  best-eq_none h (there {x = y} {xs = ys} e) =
      let (m, found) = best-some y (best before ys) in cc found

  -- No row of the table precedes the one that is returned.
  pub best-least :
      (o : IsOrder before) {x : A} {xs : List A} {m : A}
      → best before xs ≡ some m
      → In x xs
      → before x m ≡ false
  unfolding best
  best-least o {m} h (here {x = y} {xs = ys} e) = elim (better-cases y (best before ys) h) [
    | inl (same, _) ↦ rw (e ∙ sym same) (o.irrefl m)
    | inr (_, less) ↦ rw e (o.asym m y less)
  ]
  best-least o {x} {m} h (there {x = y} {xs = ys} r) = elim (better-cases y (best before ys) h) [
    | inl (same, least) ↦ elim (Option-cases (best before ys)) [
      | inl empty ↦ absurd (best-eq_none empty r)
      | inr (k, found) ↦ o.not_trans x k m (best-least o found r) (rw same (least k found))
    ]
    | inr (found, _) ↦ best-least o found r
  ]
