-- ===== src/DataContext/Readers/Refused.antt =====
-- app/datacontext/readers/minute.py and financial.py: two readers name columns that their tables do not have.
use quant_stock.Base.{
  ℕ, ◌≤◌, ◌≡◌, ◌≢◌, ◌↔◌, ◌⊎◌, inl, inr, refl, Bool, true, false, String, List, Bool-cases, str_eq,
  str_eq_iff,
}
use quant_stock.Base.Result.{
  Error, Result, ok, err, value_error, attribute_error, programming_error, ◌>>=◌,
}
use quant_stock.DataContext.Query.{QueryContext, is_full_market}
use quant_stock.DataContext.Cutoff.{CutoffOutcome, resolve_cutoff_exact}
use quant_stock.DataContext.Readers.{
  MinuteRow, FinancialRow, context_cutoff, read_minute, read_financial,
}
use quant_stock.DataContext.Readers.Answer.{Admissible}

-- a reader never answers: it raises at once, or since no instant is admissible to the query, or the error of a
-- missing column, where some instant is the latest that is admissible
abbrev pub Refused :
    {A : Type 0} → ℕ → QueryContext → (Error → Type 0) → Type 0 → Error → Result A → Type 0
Refused now q AtOnce Continues missing (ok a) = ⊥
Refused now q AtOnce Continues missing (err e) =
    AtOnce e
    ⊎ (Continues × ((d : ℕ) → ¬ Admissible now q d))
    ⊎ (Continues × (e ≡ missing) × ((c : ℕ) × ((d : ℕ) → Admissible now q d ↔ (d ≤ c))))

Refused-after_cutoff :
    (A : Type 0) (now : ℕ) (q : QueryContext) (AtOnce : Error → Type 0) {Continues : Type 0}
    (missing : Error)
    → Continues
    → Refused {A = A} now q AtOnce Continues missing (context_cutoff now q >>= λ c. err missing)
Refused-after_cutoff A now q AtOnce {Continues = Continues} missing on =
    outcome (context_cutoff now q)
      (resolve_cutoff_exact now q.time_mode q.as_of_time q.available_at_cutoff)
  where
    outcome :
        (x : Result ℕ)
        → CutoffOutcome now q.time_mode q.as_of_time q.available_at_cutoff x
        → Refused {A = A} now q AtOnce Continues missing (x >>= λ c. err missing)
    outcome (err e) h = inr (inl (on, h))
    outcome (ok c) h = inr (inr (on, refl, (c, h)))

-- the scan of a full market
abbrev pub OfMarket : QueryContext → Error → Type 0
OfMarket q e =
    (is_full_market q.security_scope ≡ true)
    × (e ≡ value_error "Full market minute scan is not allowed")

-- a report type that has no table
abbrev pub IsUnsupported : QueryContext → Error → Type 0
IsUnsupported q e =
    (q.report_type ≢ "income")
    × (q.report_type ≢ "indicator")
    × (e ≡ value_error "unsupported report_type")

module _ {Num : Type 0} (code_before : String → String → Bool) (now : ℕ) where
  -- No minute query is ever answered, whatever the table holds: one of the full market is refused at once, and
  -- every other raises, either since no instant is admissible to it or, where some instant is the latest that
  -- is, the AttributeError of the column available_at that the class of the table does not have.
  pub read_minute-Refused :
      (table : List (MinuteRow Num)) (q : QueryContext)
      → Refused now q
          (OfMarket q)
          (is_full_market q.security_scope ≡ false)
          (attribute_error "available_at")
          (read_minute code_before now table q)
  unfolding read_minute
  read_minute-Refused table q = elim (Bool-cases (is_full_market q.security_scope)) [
    | inl market ↦ rw market (inl (cc, refl))
    | inr named ↦ rw named (Refused-after_cutoff _ now q _ (attribute_error "available_at") refl)
  ]

  -- No financial query is ever answered, whatever the tables hold: one of a report type that has no table is
  -- refused at once, and every other raises, either since no instant is admissible to it or, where some instant
  -- is the latest that is, the database's error on the column security_code that neither table has.
  pub read_financial-Refused :
      (income indicator : List (FinancialRow Num)) (q : QueryContext)
      → Refused now q
          (IsUnsupported q)
          ((q.report_type ≡ "income") ⊎ (q.report_type ≡ "indicator"))
          (programming_error "column security_code does not exist")
          (read_financial code_before now income indicator q)
  unfolding read_financial
  read_financial-Refused income indicator q = elim (Bool-cases (str_eq q.report_type "income")) [
    | inl first ↦ rw first (
        Refused-after_cutoff _ now q _ (programming_error "column security_code does not exist")
          (inl ((str_eq_iff q.report_type "income").0 first)))
    | inr other ↦ elim (Bool-cases (str_eq q.report_type "indicator")) [
      | inl second ↦
          rw (other, second)
            (Refused-after_cutoff _ now q _
              (programming_error "column security_code does not exist")
              (inr ((str_eq_iff q.report_type "indicator").0 second)))
      | inr neither ↦
          rw (other, neither)
            (inl (
              (λ e. let same = (str_eq_iff q.report_type "income").1 e in cc),
              (λ e. let same = (str_eq_iff q.report_type "indicator").1 e in cc),
              refl,
            ))
    ]
  ]
