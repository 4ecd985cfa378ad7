-- ===== src/Collect/Planners/TradeCalendar/Cover.antt =====
-- app/collect/planners/trade_calendar.py: the slices cover the range, day by day, each day once.
use quant_stock.Base.{
  ℕ, zero, suc, ◌+◌, ◌-◌, ◌≡◌, ◌≤◌, ◌<◌, refl, min, Bool, ◌&&◌, String, List, [], ◌∷◌, leb, ltb,
  arith, if◌then◌else◌, Bool-cases, inl, inr, count,
}
use quant_stock.Base.Result.{Result, ok, err}
use quant_stock.Base.Json.{Json}
use quant_stock.Base.Calendar.{year_end}
use quant_stock.Collect.Planners.TradeCalendar.{
  TradeCalendarSlicePlan, slice_plan, plan_from, plan_trade_calendar_slices,
}

-- the slice asks for the day
abbrev pub covers : ℕ → TradeCalendarSlicePlan → Bool
covers d p = leb p.start_date d && leb d p.end_date

-- The slices stand one after the other: each starts at a day and holds it, the next starts on the day
-- after its end, and the last ends at the end. The orders count up.
abbrev pub Abut : ℕ → ℕ → ℕ → List TradeCalendarSlicePlan → Type 0
Abut order cursor end [] = cursor ≡ end + 1
Abut order cursor end (p ∷ ps) =
    (p.slice_order ≡ order)
    × (p.start_date ≡ cursor)
    × (cursor ≤ p.end_date)
    × Abut (order + 1) (p.end_date + 1) end ps

year_end_ge : (d : ℕ) → d ≤ year_end d
unfolding year_end
year_end_ge d = omega arith

module _ (digest : Json → String) (exchange source_binding_code mapping_version : String) where
  plan_from-Abut :
      (fuel cursor order end : ℕ)
      → cursor ≤ end + 1
      → end < cursor + fuel
      → Abut order cursor end
          (plan_from digest exchange source_binding_code mapping_version fuel cursor order end)
  unfolding plan_from slice_plan
  plan_from-Abut zero cursor order end low enough = omega arith
  plan_from-Abut (suc fuel) cursor order end low enough = elim (Bool-cases (leb cursor end)) [
    | inl more ↦
        let far = year_end_ge cursor in
        rw more (
          refl,
          refl,
          ground arith,
          plan_from-Abut fuel (min end (year_end cursor) + 1) (order + 1) end (omega arith)
              (ground arith),
        )
    | inr over ↦ rw over (ground arith)
  ]

  abbrev pub PlanOutcome : ℕ → ℕ → Result (List TradeCalendarSlicePlan) → Type 0
  PlanOutcome start end (ok plans) =
      Abut 0 start end plans
      × ((d : ℕ) → count (covers d) plans ≡ (if leb start d && leb d end then 1 else 0))
  PlanOutcome start end (err e) = end < start

Abut-count :
    (plans : List TradeCalendarSlicePlan) (order cursor end d : ℕ)
    → Abut order cursor end plans
    → (cursor ≤ end + 1) × (count (covers d) plans ≡ (if leb cursor d && leb d end then 1 else 0))
unfolding count
Abut-count [] order cursor end d h = (omega arith, ground arith)
Abut-count (p ∷ ps) order cursor end d h =
    let rest = Abut-count ps (order + 1) (p.end_date + 1) end d h.3 in (omega arith, ground arith)

module _ (digest : Json → String) (exchange source_binding_code mapping_version : String) where
  -- The plan of a range from a day to one that is not before it abuts: its slices are numbered from 0,
  -- follow one another without a gap, start at the first day and end at the last, so that each day of
  -- the range is in exactly one slice and no other day is in any; for every other range the code raises.
  pub plan_trade_calendar_slices_exact :
      (start end : ℕ)
      → PlanOutcome digest exchange source_binding_code mapping_version start end
          (plan_trade_calendar_slices digest exchange source_binding_code mapping_version start end)
  unfolding plan_trade_calendar_slices
  plan_trade_calendar_slices_exact start end = elim (Bool-cases (ltb end start)) [
    | inl refused ↦ rw refused (ground arith)
    | inr proper ↦
        let plan =
          plan_from-Abut digest exchange source_binding_code mapping_version ((end + 1) - start)
            start 0 end (ground arith) (ground arith) in
        rw proper (plan, λ d. (Abut-count _ 0 start end d plan).1)
  ]
