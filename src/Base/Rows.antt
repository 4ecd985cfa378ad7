-- ===== src/Base/Rows.antt =====
-- What SELECT, UPDATE and COUNT do to the rows of a table.
use Prim.Native.Nat.{◌+◌, ◌<◌}
use mathlib.Core.Path.{◌≡◌, refl, sym, ap, ◌∙◌}
use mathlib.Core.Bool.{Bool, true, false}
use mathlib.Core.Option.{none, some}
use mathlib.Core.Logic.{inl, inr, ◌⊎◌}
use mathlib.Core.List.{List, [], ◌∷◌, ◌++◌}
use native.Mathlib.Omega.{arith}
use quant_stock.Base.Tests.{if◌then◌else◌, Bool-cases}
use quant_stock.Base.Tables.{select, first, update, count, In, here, there}

module _ {ℓ} {A : Type ℓ} where
  pub In-append_left : {a : A} {xs : List A} (ys : List A) → In a xs → In a (xs ++ ys)
  In-append_left ys (here e) = here e
  In-append_left ys (there m) = there (In-append_left ys m)

  pub In-append_right : {a : A} (xs : List A) {ys : List A} → In a ys → In a (xs ++ ys)
  In-append_right [] m = m
  In-append_right (x ∷ xs) m = there (In-append_right xs m)

  pub In-append : {a : A} (xs ys : List A) → In a (xs ++ ys) → In a xs ⊎ In a ys
  In-append [] ys m = inr m
  In-append (x ∷ xs) ys (here e) = inl (here e)
  In-append (x ∷ xs) ys (there m) = elim (In-append xs ys m) [
    | inl l ↦ inl (there l)
    | inr r ↦ inr r
  ]

  In-if :
      {a x : A} (b : Bool) {rest : List A}
      → In a (if b then x ∷ rest else rest)
      → ((b ≡ true) × (a ≡ x)) ⊎ In a rest
  In-if true (here e) = inl (refl, e)
  In-if true (there m) = inr m
  In-if false m = inr m

  -- Every row that a SELECT returns is a row of the table that passes its WHERE clause.
  pub In-select : (p : A → Bool) {a : A} (xs : List A) → In a (select p xs) → In a xs × (p a ≡ true)
  unfolding select
  In-select p [] m = elim m [ ]
  In-select p (x ∷ xs) m = elim (In-if (p x) m) [
    | inl (passed, e) ↦ (here e, ap p e ∙ passed)
    | inr r ↦ (there (In-select p xs r).0, (In-select p xs r).1)
  ]

  -- A SELECT returns every row of the table that passes its WHERE clause.
  pub select-In : (p : A → Bool) {a : A} {xs : List A} → In a xs → p a ≡ true → In a (select p xs)
  unfolding select
  select-In p (here {x = x} {xs = xs} e) h = rw (ap p (sym e) ∙ h) (here e)
  select-In p (there {x = x} {xs = xs} m) h = elim (Bool-cases (p x)) [
    | inl yes_x ↦ rw yes_x (there (select-In p m h))
    | inr no_x ↦ rw no_x (select-In p m h)
  ]

  pub first-eq_some :
      (p : A → Bool) {a : A} (xs : List A) → first p xs ≡ some a → In a xs × (p a ≡ true)
  unfolding first
  first-eq_some p [] h = cc
  first-eq_some p (x ∷ xs) h = elim (Bool-cases (p x)) [
    | inl yes_x ↦
        let e : some x ≡ some _ = rw yes_x at h in
        let same : _ ≡ x = cc in (here same, ap p same ∙ yes_x)
    | inr no_x ↦ let found = first-eq_some p xs (rw no_x at h) in (there found.0, found.1)
  ]

  pub first-eq_none :
      (p : A → Bool) {a : A} {xs : List A} → first p xs ≡ none → In a xs → p a ≡ false
  unfolding first
  first-eq_none p h (here {x = x} {xs = xs} e) = elim (Bool-cases (p x)) [
    | inl yes_x ↦ cc (rw yes_x at h)
    | inr no_x ↦ ap p e ∙ no_x
  ]
  first-eq_none p h (there {x = x} {xs = xs} m) = elim (Bool-cases (p x)) [
    | inl yes_x ↦ cc (rw yes_x at h)
    | inr no_x ↦ first-eq_none p (rw no_x at h) m
  ]

  -- A row after an UPDATE is an old row, changed exactly if it passed the WHERE clause.
  pub In-update :
      (p : A → Bool) (f : A → A) {b : A} (xs : List A)
      → In b (update p f xs)
      → (a : A) × In a xs × (b ≡ (if p a then f a else a))
  unfolding update
  In-update p f [] m = elim m [ ]
  In-update p f (x ∷ xs) (here e) = (x, here refl, e)
  In-update p f (x ∷ xs) (there m) = let (a, old, e) = In-update p f xs m in (a, there old, e)

  pub update-In :
      (p : A → Bool) (f : A → A) {a : A} {xs : List A}
      → In a xs
      → In (if p a then f a else a) (update p f xs)
  unfolding update
  update-In p f (here {x = x} {xs = xs} e) = here (ap (λ y. if p y then f y else y) e)
  update-In p f (there {x = x} {xs = xs} m) = there (update-In p f m)

  -- An UPDATE whose WHERE clause no row passes changes nothing.
  pub update-eq_self_of_count :
      (p : A → Bool) (f : A → A) (xs : List A) → count p xs ≡ 0 → update p f xs ≡ xs
  unfolding update count
  update-eq_self_of_count p f [] h = refl
  update-eq_self_of_count p f (x ∷ xs) h = elim (Bool-cases (p x)) [
    | inl yes_x ↦ absurd (omega (arith, (rw yes_x at h)))
    | inr no_x ↦ rw no_x (ap (λ ys. x ∷ ys) (update-eq_self_of_count p f xs (rw no_x at h)))
  ]

  pub count-eq_zero : (p : A → Bool) {a : A} {xs : List A} → count p xs ≡ 0 → In a xs → p a ≡ false
  unfolding count
  count-eq_zero p h (here {x = x} {xs = xs} e) = elim (Bool-cases (p x)) [
    | inl yes_x ↦ absurd (omega (arith, (rw yes_x at h)))
    | inr no_x ↦ ap p e ∙ no_x
  ]
  count-eq_zero p h (there {x = x} {xs = xs} m) = elim (Bool-cases (p x)) [
    | inl yes_x ↦ absurd (omega (arith, (rw yes_x at h)))
    | inr no_x ↦ count-eq_zero p (rw no_x at h) m
  ]

  pub count_zero : (p : A → Bool) (xs : List A) → ((a : A) → In a xs → p a ≡ false) → count p xs ≡ 0
  unfolding count
  count_zero p [] h = refl
  count_zero p (x ∷ xs) h = rw (h x (here refl)) (count_zero p xs (λ a m. h a (there m)))

  pub count_pos : (p : A → Bool) {a : A} {xs : List A} → In a xs → p a ≡ true → 0 < count p xs
  unfolding count
  count_pos p (here {x = x} {xs = xs} e) h = rw (ap p (sym e) ∙ h) (omega arith)
  count_pos p (there {x = x} {xs = xs} m) h = elim (Bool-cases (p x)) [
    | inl yes_x ↦ rw yes_x (omega arith)
    | inr no_x ↦ rw no_x (count_pos p m h)
  ]

  -- Updated rows that still pass, or that pass in consequence, are counted by the composed test.
  pub count-append : (p : A → Bool) (xs ys : List A) → count p (xs ++ ys) ≡ count p xs + count p ys
  unfolding count
  count-append p [] ys = omega arith
  count-append p (x ∷ xs) ys = let rest = count-append p xs ys in ground arith

  pub count-update :
      (q p : A → Bool) (f : A → A) (xs : List A)
      → count q (update p f xs) ≡ count (λ a. q (if p a then f a else a)) xs
  unfolding count update
  count-update q p f [] = refl
  count-update q p f (x ∷ xs) = rw (count-update q p f xs)

  -- Two UPDATEs in a row are one, where each row ends the same.
  pub update-update :
      (p q r : A → Bool) (f g h : A → A) (xs : List A)
      → ((a : A)
          → (if q (if p a then f a else a)
              then g (if p a then f a else a)
              else (if p a then f a else a))
            ≡ (if r a then h a else a))
      → update q g (update p f xs) ≡ update r h xs
  unfolding update
  update-update p q r f g h [] e = refl
  update-update p q r f g h (x ∷ xs) e = rw (e x, update-update p q r f g h xs e)

  pub update_congr :
      (p q : A → Bool) (f : A → A) (xs : List A)
      → ((a : A) → In a xs → p a ≡ q a)
      → update p f xs ≡ update q f xs
  unfolding update
  update_congr p q f [] e = refl
  update_congr p q f (x ∷ xs) e = rw (e x (here refl), update_congr p q f xs (λ a m. e a (there m)))

  pub update_none : (f : A → A) (xs : List A) → update (λ _. false) f xs ≡ xs
  unfolding update
  update_none f [] = refl
  update_none f (x ∷ xs) = rw (update_none f xs)
