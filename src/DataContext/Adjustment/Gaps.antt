-- ===== src/DataContext/Adjustment/Gaps.antt =====
-- app/datacontext/adjustment.py: the rows that are marked instead of adjusted.
use quant_stock.Base.{
  ℕ, ◌≡◌, refl, sym, ap, subst, ◌∙◌, ◌↔◌, ◌⊎◌, inl, inr, Bool, true, ◌&&◌, String, none, some, List,
  [], ◌∷◌, ◌==◌, str_eq, str_eq_iff, here, there, Bool-cases, Option-cases, &&-eq_true, arith,
}
use quant_stock.DataContext.Query.{AdjustmentMethod}
use quant_stock.DataContext.Readers.{DailyRow}
use quant_stock.DataContext.Adjustment.{FactorRow, factor_at, resolve_base_factor, adjust_row}
use quant_stock.DataContext.Adjustment.Anchor.{
  HasFactor, AnchorOutcome, resolve_base_factor_anchors,
}

module _ {Num : Type 0} where
  factor_at-HasFactor :
      (fs : List (FactorRow Num)) (code : String) (day : ℕ) {v : Num}
      → factor_at fs code day ≡ some v
      → HasFactor fs code day v
  unfolding factor_at
  factor_at-HasFactor [] code day h = cc
  factor_at-HasFactor (f ∷ fs) code day h = elim (Option-cases (factor_at fs code day)) [
    | inl missing ↦ elim (Bool-cases (str_eq f.security_code code && f.trade_date == day)) [
      | inl match ↦
          let parts = &&-eq_true _ _ match in
          (
            f,
            here refl,
            (str_eq_iff f.security_code code).0 parts.0,
            ground arith,
            (rw (missing, match) at h),
          )
      | inr other ↦ let h' = rw (missing, other) at h in cc
    ]
    | inr (w, found) ↦
        let k = factor_at-HasFactor fs code day (found ∙ (rw found at h)) in
        (k.0, there k.1, k.2, k.3, k.4)
  ]

  HasFactor-factor_at :
      (fs : List (FactorRow Num)) (code : String) (day : ℕ) (v : Num)
      → factor_at fs code day ≡ none
      → ¬ HasFactor fs code day v
  unfolding factor_at
  HasFactor-factor_at [] code day v h (g, m, c, t, w) = elim m [ ]
  HasFactor-factor_at (f ∷ fs) code day v h (g, here e, c, t, w) =
      elim (Option-cases (factor_at fs code day)) [
        | inl missing ↦
            let same =
              (str_eq_iff f.security_code code).1
                (ap (λ (x : FactorRow Num). x.security_code) (sym e) ∙ c) in
            let dated : (f.trade_date == day) ≡ true =
              let t' = ap (λ (x : FactorRow Num). x.trade_date) (sym e) ∙ t in ground arith in
            let h' =
              rw (missing, same, dated, ap (λ (x : FactorRow Num). x.adj_factor) (sym e) ∙ w) at
                h in
            cc
        | inr (u, found) ↦ let h' = rw found at h in cc
      ]
  HasFactor-factor_at (f ∷ fs) code day v h (g, there m, c, t, w) =
      elim (Option-cases (factor_at fs code day)) [
        | inl missing ↦ HasFactor-factor_at fs code day v missing (g, m, c, t, w)
        | inr (u, found) ↦ let h' = rw found at h in cc
      ]

  -- a code that has a factor has a base
  base_missing :
      (fs : List (FactorRow Num)) (method : AdjustmentMethod) (code : String)
      → resolve_base_factor fs method code ≡ none
      → (d : ℕ) (v : Num) → ¬ HasFactor fs code d v
  base_missing fs method code h =
      subst (AnchorOutcome fs method code) h (resolve_base_factor_anchors fs method code)

  module _ (scale divide : Num → Num → Num) (is_zero : Num → Bool) (fs : List (FactorRow Num))
      (method : AdjustmentMethod) where
    -- the base of a code is 0
    abbrev pub HasZeroBase : String → Type 0
    HasZeroBase code =
        (b : Num) × (resolve_base_factor fs method code ≡ some b) × (is_zero b ≡ true)

    -- A row is marked as a gap exactly where its code has no factor on its day, or a base that is 0: a
    -- factor on the day is enough for a base to be there.
    pub adjust_row_gap :
        (r : DailyRow Num)
        → ((adjust_row scale divide is_zero fs method r).adjustment_gap ≡ true) ↔ (
            ((v : Num) → ¬ HasFactor fs r.security_code r.trade_date v)
            ⊎ HasZeroBase r.security_code)
    unfolding adjust_row
    adjust_row_gap r = elim (Option-cases (factor_at fs r.security_code r.trade_date)) [
      | inl missing ↦ rw missing (λ _. inl (λ v. HasFactor-factor_at fs _ _ v missing), λ _. refl)
      | inr (f, found) ↦
          let known = factor_at-HasFactor fs _ _ found in
          elim (Option-cases (resolve_base_factor fs method r.security_code)) [
            | inl lost ↦ elim (base_missing fs method _ lost r.trade_date f known) [ ]
            | inr (b, base) ↦ elim (Bool-cases (is_zero b)) [
              | inl zeroed ↦ rw (found, base, zeroed) (λ _. inr (b, refl, zeroed), λ _. refl)
              | inr sound ↦
                  rw (found, base, sound)
                    (
                      λ h. cc,
                      λ h. elim h [
                        | inl bare ↦ elim (bare f known) [ ]
                        | inr (x, e, z) ↦ let same : b ≡ x = cc in cc
                      ],
                    )
            ]
          ]
    ]
