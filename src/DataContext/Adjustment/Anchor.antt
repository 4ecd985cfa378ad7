-- ===== src/DataContext/Adjustment/Anchor.antt =====
-- app/datacontext/adjustment.py: which factor anchors a code, and what a row keeps.
use quant_stock.Base.{
  ℕ, ◌≡◌, ◌≤◌, refl, sym, ap, ◌∙◌, ◌↔◌, ◌⊎◌, inl, inr, String, Option, none, some, List, [], ◌∷◌,
  str_eq, str_eq_iff, sort, IsSorted, IsOrder, sort-IsSorted, In-sort, sort-In, In, here, there,
  Bool-cases, arith,
}
use quant_stock.DataContext.Query.{AdjustmentMethod}
use quant_stock.DataContext.Adjustment.{
  FactorRow, entry_of, entries_of, earlier, first_value, last_value, resolve_base_factor,
}

module _ {Num : Type 0} where
  -- the factor rows give the code a value on a day
  abbrev pub HasFactor : List (FactorRow Num) → String → ℕ → Num → Type 0
  HasFactor factors code day v =
      (f : FactorRow Num) × In f factors
      × (f.security_code ≡ code)
      × (f.trade_date ≡ day)
      × (f.adj_factor ≡ some v)

  earlier-IsOrder : IsOrder (earlier {Num = Num})
  earlier-IsOrder = record {
    irrefl = λ x. ground arith;
    asym = λ x y h. ground arith;
    not_trans = λ x y z h k. ground arith;
  }

  In-entry_of :
      (code : String) (f : FactorRow Num) (o : Option Num) {es : List (ℕ × Num)} {d : ℕ} {v : Num}
      → In (d, v) (entry_of code f o es)
      → ((f.security_code ≡ code) × (f.trade_date ≡ d) × (o ≡ some v)) ⊎ In (d, v) es
  In-entry_of code f none m = inr m
  In-entry_of code f (some w) {es} {d} {v} m = elim (Bool-cases (str_eq f.security_code code)) [
    | inl same ↦ split ((str_eq_iff f.security_code code).0 same) (rw same at m)
    | inr other ↦ inr (rw other at m)
  ]
    where
      split :
          f.security_code ≡ code
          → In (d, v) ((f.trade_date, w) ∷ es)
          → ((f.security_code ≡ code) × (f.trade_date ≡ d) × (some w ≡ some v)) ⊎ In (d, v) es
      split same (here e) =
          inl (same, ap (λ (x : ℕ × Num). x.0) (sym e), ap (λ (x : ℕ × Num). some x.1) (sym e))
      split same (there r) = inr r

  entries-HasFactor :
      (fs : List (FactorRow Num)) (code : String) {d : ℕ} {v : Num}
      → In (d, v) (entries_of fs code)
      → HasFactor fs code d v
  unfolding entries_of
  entries-HasFactor [] code m = elim m [ ]
  entries-HasFactor (f ∷ fs) code m = elim (In-entry_of code f f.adj_factor m) [
    | inl h ↦ (f, here refl, h.0, h.1, h.2)
    | inr r ↦ let h = entries-HasFactor fs code r in (h.0, there h.1, h.2, h.3, h.4)
  ]

  entry_of-In :
      (code : String) (f : FactorRow Num) (o : Option Num) {es : List (ℕ × Num)} {x : ℕ × Num}
      → In x es
      → In x (entry_of code f o es)
  entry_of-In code f none m = m
  entry_of-In code f (some w) m = elim (Bool-cases (str_eq f.security_code code)) [
    | inl same ↦ rw same (there m)
    | inr other ↦ rw other m
  ]

  HasFactor-entries :
      (fs : List (FactorRow Num)) (code : String) {d : ℕ} {v : Num}
      → HasFactor fs code d v
      → In (d, v) (entries_of fs code)
  unfolding entries_of
  HasFactor-entries [] code (g, m, c, t, w) = elim m [ ]
  HasFactor-entries (f ∷ fs) code {d} {v} (g, here e, c, t, w) =
      rw
        (
          ap (λ (x : FactorRow Num). x.adj_factor) (sym e) ∙ w,
          (str_eq_iff f.security_code code).1
              (ap (λ (x : FactorRow Num). x.security_code) (sym e) ∙ c),
        )
        (here (ap (λ (n : ℕ). (n, v)) (sym t ∙ ap (λ (x : FactorRow Num). x.trade_date) e)))
  HasFactor-entries (f ∷ fs) code (g, there m, c, t, w) =
      entry_of-In code f f.adj_factor (HasFactor-entries fs code (g, m, c, t, w))

  first_of_sorted :
      (es : List (ℕ × Num)) {v : Num}
      → IsSorted earlier es
      → first_value es ≡ some v
      → (d : ℕ) × In (d, v) es × ((e : ℕ × Num) → In e es → d ≤ e.0)
  first_of_sorted [] s h = cc
  first_of_sorted (e ∷ es) {v} s h =
      (e.0, here (ap (λ (w : Num). (e.0, w)) (value_eq (sym h))), least)
    where
      value_eq : some v ≡ some e.1 → v ≡ e.1
      value_eq p = cc

      least : (x : ℕ × Num) → In x (e ∷ es) → e.0 ≤ x.0
      least x (here p) = rw p (omega arith)
      least x (there m) = let k = s.0 x m in ground arith

  last_of_sorted :
      (es : List (ℕ × Num)) {v : Num}
      → IsSorted earlier es
      → last_value es ≡ some v
      → (d : ℕ) × In (d, v) es × ((e : ℕ × Num) → In e es → e.0 ≤ d)
  last_of_sorted [] s h = cc
  last_of_sorted (e ∷ []) {v} s h =
      (e.0, here (ap (λ (w : Num). (e.0, w)) (value_eq (sym h))), most)
    where
      value_eq : some v ≡ some e.1 → v ≡ e.1
      value_eq p = cc

      most : (x : ℕ × Num) → In x (e ∷ []) → x.0 ≤ e.0
      most x (here p) = rw p (omega arith)
      most x (there m) = elim m [ ]
  last_of_sorted (e ∷ f ∷ es) s h =
      let rest = last_of_sorted (f ∷ es) s.1 h in (rest.0, there rest.1, most rest.0 rest.2)
    where
      most :
          (d : ℕ)
          → ((x : ℕ × Num) → In x (f ∷ es) → x.0 ≤ d)
          → (x : ℕ × Num) → In x (e ∷ f ∷ es)
          → x.0 ≤ d
      most d late x (here p) =
          let k = s.0 f (here refl) in let l = late f (here refl) in rw p (ground arith)
      most d late x (there m) = late x m

  -- The factor that anchors a code in a direction: a value of the code on a day such that the code has
  -- no value on a later day (forward), or on an earlier one (backward).
  abbrev pub Anchors : List (FactorRow Num) → AdjustmentMethod → String → ℕ → Num → Type 0
  Anchors fs AdjustmentMethod.backward_adj code d v =
      HasFactor fs code d v × ((e : ℕ) (w : Num) → HasFactor fs code e w → d ≤ e)
  Anchors fs _ code d v =
      HasFactor fs code d v × ((e : ℕ) (w : Num) → HasFactor fs code e w → e ≤ d)

  abbrev pub AnchorOutcome : List (FactorRow Num) → AdjustmentMethod → String → Option Num → Type 0
  AnchorOutcome fs method code none = (d : ℕ) (v : Num) → ¬ HasFactor fs code d v
  AnchorOutcome fs method code (some v) = (d : ℕ) × Anchors fs method code d v

  first_none : (es : List (ℕ × Num)) {x : ℕ × Num} → first_value es ≡ none → ¬ In x es
  first_none [] h m = elim m [ ]
  first_none (e ∷ es) h m = cc

  last_none : (es : List (ℕ × Num)) {x : ℕ × Num} → last_value es ≡ none → ¬ In x es
  last_none [] h m = elim m [ ]
  last_none (e ∷ []) h m = cc
  last_none (e ∷ f ∷ es) h m = last_none (f ∷ es) h (here refl)

  module _ (fs : List (FactorRow Num)) (code : String) where
    ordered : List (ℕ × Num)
    ordered = sort earlier (entries_of fs code)

    ordered_iff : (d : ℕ) (v : Num) → In (d, v) ordered ↔ HasFactor fs code d v
    unfolding ordered
    ordered_iff d v = (
      λ m. entries-HasFactor fs code (In-sort earlier (entries_of fs code) m),
      λ h. sort-In earlier (HasFactor-entries fs code h),
    )

    ordered-IsSorted : IsSorted earlier ordered
    unfolding ordered
    ordered-IsSorted = sort-IsSorted earlier earlier-IsOrder (entries_of fs code)

    backward_anchors :
        (o : Option Num)
        → first_value ordered ≡ o
        → AnchorOutcome fs AdjustmentMethod.backward_adj code o
    backward_anchors none h = λ d v k. first_none ordered h ((ordered_iff d v).1 k)
    backward_anchors (some v) h =
        let found = first_of_sorted ordered ordered-IsSorted h in
        (
          found.0,
          ((ordered_iff found.0 v).0 found.1, λ e w k. found.2 (e, w) ((ordered_iff e w).1 k)),
        )

    latest_anchors :
        (o : Option Num)
        → last_value ordered ≡ o
        → AnchorOutcome fs AdjustmentMethod.forward_adj code o
    latest_anchors none h = λ d v k. last_none ordered h ((ordered_iff d v).1 k)
    latest_anchors (some v) h =
        let found = last_of_sorted ordered ordered-IsSorted h in
        (
          found.0,
          ((ordered_iff found.0 v).0 found.1, λ e w k. found.2 (e, w) ((ordered_iff e w).1 k)),
        )

  -- For each code the base of the adjustment is a value of the latest day on which the code has one,
  -- or of the earliest where the method is backward; it is missing only where the code has none.
  pub resolve_base_factor_anchors :
      (fs : List (FactorRow Num)) (method : AdjustmentMethod) (code : String)
      → AnchorOutcome fs method code (resolve_base_factor fs method code)
  unfolding resolve_base_factor ordered
  resolve_base_factor_anchors fs AdjustmentMethod.unadjusted code =
      latest_as_is _ (latest_anchors fs code _ refl)
    where
      latest_as_is :
          (o : Option Num)
          → AnchorOutcome fs AdjustmentMethod.forward_adj code o
          → AnchorOutcome fs AdjustmentMethod.unadjusted code o
      latest_as_is none h = h
      latest_as_is (some v) h = h
  resolve_base_factor_anchors fs AdjustmentMethod.forward_adj code = latest_anchors fs code _ refl
  resolve_base_factor_anchors fs AdjustmentMethod.backward_adj code =
      backward_anchors fs code _ refl
