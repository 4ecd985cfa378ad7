-- ===== src/DataContext/Readers/Answer.antt =====
-- app/datacontext/readers: what a reader may answer, and when its WHERE clause is right.
use quant_stock.Base.{
  ℕ, ◌≤◌, ◌≡◌, ◌↔◌, Bool, true, ◌&&◌, String, Option, List, arith, select, sort, In, In-select,
  select-In, In-sort, sort-In,
}
use quant_stock.Base.Result.{Result, ok, err, ◌>>=◌}
use quant_stock.DataContext.Query.{QueryContext}
use quant_stock.DataContext.Cutoff.{IsAdmissible, CutoffOutcome, resolve_cutoff_exact}
use quant_stock.DataContext.Readers.{context_cutoff}
use quant_stock.DataContext.Readers.Gate.{
  Admits, InScope, InWindow, passes, within, passes_iff, window_iff,
}

abbrev pub Admissible : ℕ → QueryContext → ℕ → Type 0
Admissible now q t = IsAdmissible now q.time_mode q.as_of_time q.available_at_cutoff t

-- a row of a code, a status and a time at which it was available may be shown to a query
abbrev pub Shown : ℕ → QueryContext → Option (List String) → String → String → ℕ → Type 0
Shown now q codes code status t =
    Admissible now q t × Admits q.quality_policy status × InScope codes code

module _ {ℓ} {A : Type ℓ} (before : A → A → Bool) (p : A → Bool) (table : List A) where
  -- ORDER BY after WHERE answers the rows of the table that pass the test
  pub answer_iff : (r : A) → In r (sort before (select p table)) ↔ (In r table × (p r ≡ true))
  answer_iff r = (
    λ m. In-select p table (In-sort before (select p table) m),
    λ h. sort-In before (select-In p h.0 h.1),
  )

-- what a reader may answer: exactly the rows of the table that satisfy a statement, or an error
-- where no instant is admissible to the query
abbrev pub Answer :
    {A : Type 0} → ℕ → QueryContext → (A → Type 0) → List A → Result (List A) → Type 0
Answer now q Seen table (ok rows) = (r : _) → In r rows ↔ (In r table × Seen r)
Answer now q Seen table (err e) = (d : ℕ) → ¬ Admissible now q d

-- the tests that the readers share, against the statement
module _ (now : ℕ) (q : QueryContext) (c : ℕ) (h : (d : ℕ) → Admissible now q d ↔ (d ≤ c)) where
  pub passes-Shown :
      (codes : Option (List String)) (code status : String) (t : ℕ)
      → (passes c q.quality_policy codes code status t ≡ true) ↔ Shown now q codes code status t
  passes-Shown codes code status t =
      ground (arith, passes_iff c q.quality_policy codes code status t, h t)

  pub seen_iff :
      (codes : Option (List String)) (code status : String) (t : ℕ) (start end : Option ℕ) (d : ℕ)
      → ((passes c q.quality_policy codes code status t && within start end d) ≡ true)
        ↔ (Shown now q codes code status t × InWindow start end d)
  seen_iff codes code status t start end d =
      ground (arith, passes-Shown codes code status t, window_iff start end d)

module _ {A : Type 0} (now : ℕ) (q : QueryContext) where
  -- a reader answers exactly what its test lets through, if the test is right at every cutoff that
  -- may be resolved
  pub reader_exact :
      (before : A → A → Bool) (visible : ℕ → A → Bool) (Seen : A → Type 0) (table : List A)
      → ((c : ℕ)
          → ((d : ℕ) → Admissible now q d ↔ (d ≤ c))
          → (r : A) → (visible c r ≡ true) ↔ Seen r)
      → Answer now q Seen table
          (context_cutoff now q >>= λ c. ok (sort before (select (visible c) table)))
  reader_exact before visible Seen table right =
      outcome (context_cutoff now q)
        (resolve_cutoff_exact now q.time_mode q.as_of_time q.available_at_cutoff)
    where
      outcome :
          (x : Result ℕ)
          → CutoffOutcome now q.time_mode q.as_of_time q.available_at_cutoff x
          → Answer now q Seen table (x >>= λ c. ok (sort before (select (visible c) table)))
      outcome (err e) h = h
      outcome (ok c) h = λ r. (
        λ m. let k = (answer_iff before (visible c) table r).0 m in (k.0, (right c h r).0 k.1),
        λ k. (answer_iff before (visible c) table r).1 (k.0, (right c h r).1 k.1),
      )
