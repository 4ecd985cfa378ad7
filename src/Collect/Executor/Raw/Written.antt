-- ===== src/Collect/Executor/Raw/Written.antt =====
-- app/collect/executor.py, _write_rows: what the RAW tables hold once an answer is written.
use quant_stock.Base.{
  ◌≡◌, refl, ap, sym, ◌∙◌, subst, ◌⊎◌, str_eq, Bool-cases, true, inl, inr, String, none, some, List,
  [], ◌∷◌, All, Option-cases, arith,
}
use quant_stock.Base.Result.{ok_or_err, Result, ok, err, Error}
use quant_stock.Base.Json.{Json, Dict}
use quant_stock.Collect.Model.{RequestSlice, SourceBinding, CollectRun, RawRow, Store}
use quant_stock.Collect.Executor.Fields.{item_fields}
use quant_stock.Collect.Executor.Paging.{chunk_rows}
use quant_stock.Collect.Executor.Paging.Chunks.{chunk_rows_exact}
use quant_stock.Collect.Executor.Raw.{
  Writing, business_of, frequency_of, adapt, businesses_of, raw_values, raw_insert_batch_size,
  insert_rows, write_rows,
}
use quant_stock.Collect.Executor.Raw.Unique.{
  IsUnique, IsStored, insert_rows-IsUnique, insert_rows_there, insert_rows_stored,
  insert_chunks-eq-concat,
}

-- a bar of minutes whose request names no frequency
abbrev pub LacksFrequency : String → RequestSlice → Type 0
LacksFrequency code s = (str_eq code "stock_minute" ≡ true) × (str_eq (frequency_of s) "" ≡ true)

adapt-LacksFrequency :
    (code : String) (s : RequestSlice) (d : Dict) {e : Error}
    → adapt code s d ≡ err e
    → LacksFrequency code s
unfolding adapt
adapt-LacksFrequency code s d raised = elim (Bool-cases (str_eq code "trade_calendar")) [
  | inl calendar ↦ let r = rw calendar at raised in cc
  | inr other ↦ elim (Bool-cases (str_eq code "stock_minute")) [
    | inr neither ↦ let r = rw (other, neither) at raised in cc
    | inl minute ↦ elim (Bool-cases (str_eq (frequency_of s) "")) [
      | inl lacks ↦ (minute, lacks)
      | inr named ↦ let r = rw (other, minute, named) at raised in cc
    ]
  ]
]

businesses_of-LacksFrequency :
    (code : String) (s : RequestSlice) (fields : List String) (rows : List Dict) {e : Error}
    → businesses_of code s fields rows ≡ err e
    → LacksFrequency code s
unfolding businesses_of
businesses_of-LacksFrequency code s fields [] raised = cc
businesses_of-LacksFrequency code s fields (row ∷ rows) raised =
    elim (ok_or_err (adapt code s (business_of row fields))) [
      | inr (e, bad) ↦ adapt-LacksFrequency code s (business_of row fields) bad
      | inl (business, good) ↦ elim (ok_or_err (businesses_of code s fields rows)) [
        | inr (e, bad) ↦ businesses_of-LacksFrequency code s fields rows bad
        | inl (others, fine) ↦ let r = rw (good, fine) at raised in cc
      ]
    ]

module _ (digest : Json → String) where
  -- a write that returns inserts the rows of the businesses, whatever the size of the chunks
  pub data Written (w : Writing) (code : String) (run : CollectRun) (s : RequestSlice)
      (binding : SourceBinding) (rows : List Dict) (db db' : Store) : Type 0 where
    inserted :
        (fields : List String) (businesses : List Dict)
        → item_fields code ≡ some fields
        → businesses_of code s fields rows ≡ ok businesses
        → db'.raw_rows ≡ insert_rows (raw_values digest w code run s binding businesses) db.raw_rows
        → db'.slices ≡ db.slices
        → Written w code run s binding rows db db'

  abbrev pub WriteOutcome :
      Writing
      → String
      → CollectRun
      → RequestSlice
      → SourceBinding
      → List Dict
      → Store
      → Result Store
      → Type 0
  WriteOutcome w code run s binding rows db (ok db') = Written w code run s binding rows db db'
  WriteOutcome w code run s binding rows db (err e) =
      (item_fields code ≡ none) ⊎ LacksFrequency code s

  pub write_rows-WriteOutcome :
      (w : Writing) (code : String) (run : CollectRun) (s : RequestSlice) (binding : SourceBinding)
      (rows : List Dict) (db : Store)
      → WriteOutcome w code run s binding rows db (write_rows digest w code run s binding rows db)
  unfolding write_rows
  write_rows-WriteOutcome w code run s binding rows db = elim (Option-cases (item_fields code)) [
    | inl unknown ↦ rw unknown (inl unknown)
    | inr (fields, known) ↦ elim (ok_or_err (businesses_of code s fields rows)) [
      | inr (raised, bad) ↦
          rw (known, bad) (inr (businesses_of-LacksFrequency code s fields rows bad))
      | inl (businesses, good) ↦
          let values = raw_values digest w code run s binding businesses in
          let cut = chunk_rows_exact raw_insert_batch_size values in
          elim (ok_or_err (chunk_rows raw_insert_batch_size values)) [
            | inr (raised, uncut) ↦
                let zero = rw uncut at cut in let absurd : ⊥ = omega arith in elim absurd [ ]
            | inl (chunks, cut_to) ↦
                rw (known, good, cut_to)
                  (inserted fields businesses known good
                    (insert_chunks-eq-concat chunks db.raw_rows
                      ∙ ap (λ rs. insert_rows rs db.raw_rows) (rw cut_to at cut).0)
                    refl)
          ]
    ]
  ]

  written :
      (w : Writing) (code : String) (run : CollectRun) (s : RequestSlice) (binding : SourceBinding)
      (rows : List Dict) (db : Store) {db' : Store}
      → write_rows digest w code run s binding rows db ≡ ok db'
      → Written w code run s binding rows db db'
  written w code run s binding rows db e =
      subst (WriteOutcome w code run s binding rows db) e
        (write_rows-WriteOutcome w code run s binding rows db)

  -- Where each RAW table has at most one row of a content, it has after a write that returns.
  pub write_rows-IsUnique :
      (w : Writing) (code : String) (run : CollectRun) (s : RequestSlice) (binding : SourceBinding)
      (rows : List Dict) (db : Store) {db' : Store}
      → IsUnique db.raw_rows
      → write_rows digest w code run s binding rows db ≡ ok db'
      → IsUnique db'.raw_rows
  write_rows-IsUnique w code run s binding rows db unique e =
      by_rows (written w code run s binding rows db e)
    where
      by_rows : {d : Store} → Written w code run s binding rows db d → IsUnique d.raw_rows
      by_rows (inserted fields businesses known good holds kept) = rw holds (
          insert_rows-IsUnique (raw_values digest w code run s binding businesses) db.raw_rows
            unique)

  -- the contents do not depend on the run and the batch
  raw_values-IsStored :
      (w again : Writing) (code : String) (run rerun : CollectRun) (s : RequestSlice)
      (binding : SourceBinding) (businesses : List Dict) (rows : List RawRow)
      → All (λ r. IsStored r rows) (raw_values digest w code run s binding businesses)
      → All (λ r. IsStored r rows) (raw_values digest again code rerun s binding businesses)
  unfolding raw_values
  raw_values-IsStored w again code run rerun s binding [] rows stored = tt
  raw_values-IsStored w again code run rerun s binding (b ∷ bs) rows stored =
      (stored.0, raw_values-IsStored w again code run rerun s binding bs rows stored.1)

  -- An answer that is written a second time, by whatever run and into whatever batch, adds no row to the RAW
  -- tables.
  pub write_rows_again :
      (w again : Writing) (code : String) (run rerun : CollectRun) (s : RequestSlice)
      (binding : SourceBinding) (rows : List Dict) (db : Store) {db' db'' : Store}
      → write_rows digest w code run s binding rows db ≡ ok db'
      → write_rows digest again code rerun s binding rows db' ≡ ok db''
      → db''.raw_rows ≡ db'.raw_rows
  write_rows_again w again code run rerun s binding rows db {db' = db'} {db'' = db''} e e' =
      by_rows (written w code run s binding rows db e)
        (written again code rerun s binding rows db' e')
    where
      by_rows :
          Written w code run s binding rows db db'
          → Written again code rerun s binding rows db' db''
          → db''.raw_rows ≡ db'.raw_rows
      by_rows (inserted fields bs known good holds kept)
            (inserted fields' bs' known' good' holds' kept') =
          let same_fields : fields ≡ fields' = cc in
          let same_rows : bs ≡ bs' = let good'' = rw same_fields at good in cc in
          let there = insert_rows_there (raw_values digest w code run s binding bs) db.raw_rows in
          holds'
          ∙ insert_rows_stored (raw_values digest again code rerun s binding bs') db'.raw_rows (
              rw (sym same_rows, holds)
                (raw_values-IsStored w again code run rerun s binding bs _ there))
