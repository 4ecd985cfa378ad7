-- ===== src/Collect/Executor/Raw/Unique.antt =====
-- app/collect/executor.py, _write_rows: a RAW table keeps one row for a content, however the rows are cut.
use quant_stock.Base.{
  ◌≡◌, ◌≤◌, ◌<◌, refl, sym, ◌∙◌, true, false, ◌&&◌, inl, inr, List, [], ◌∷◌, ◌++◌, ◌==◌, str_eq,
  str_eq_iff, count, count-append, arith, Bool-cases, &&-eq_true, All,
}
use quant_stock.Collect.Model.{RawRow}
use quant_stock.Collect.Executor.Raw.{same_content, insert_row, insert_rows, insert_chunks}
use quant_stock.Collect.Executor.Paging.Chunks.{concat}

-- the constraint of the RAW tables
abbrev pub IsUnique : List RawRow → Type 0
IsUnique rows = (r : RawRow) → count (same_content r) rows ≤ 1

-- a row with the content is there
abbrev pub IsStored : RawRow → List RawRow → Type 0
IsStored r rows = 0 < count (same_content r) rows

own_content : (r : RawRow) → same_content r r ≡ true
own_content r = ground (
  arith,
  str_eq_iff r.item_code r.item_code,
  str_eq_iff r.source r.source,
  str_eq_iff r.source_api r.source_api,
  str_eq_iff r.content_hash r.content_hash,
)

-- rows of one content have one test
content_test : (q r : RawRow) → same_content q r ≡ true → same_content q ≡ same_content r
content_test q r same =
    let a =
      &&-eq_true
        (str_eq r.item_code q.item_code
          && str_eq r.source q.source
          && str_eq r.source_api q.source_api)
        (str_eq r.content_hash q.content_hash) same in
    let b =
      &&-eq_true (str_eq r.item_code q.item_code && str_eq r.source q.source)
        (str_eq r.source_api q.source_api) a.0 in
    let c = &&-eq_true (str_eq r.item_code q.item_code) (str_eq r.source q.source) b.0 in
    let item = (str_eq_iff r.item_code q.item_code).0 c.0 in
    let source = (str_eq_iff r.source q.source).0 c.1 in
    let api = (str_eq_iff r.source_api q.source_api).0 b.1 in
    let hash = (str_eq_iff r.content_hash q.content_hash).0 a.1 in rw (item, source, api, hash) refl

insert_row-IsUnique :
    (r : RawRow) (rows : List RawRow) → IsUnique rows → IsUnique (insert_row r rows)
unfolding insert_row count
insert_row-IsUnique r rows unique q = elim (Bool-cases (count (same_content r) rows == 0)) [
  | inr there ↦ rw there (unique q)
  | inl absent ↦
      rw (absent, count-append (same_content q) rows (r ∷ []))
        (elim (Bool-cases (same_content q r)) [
          | inl same ↦
              let alike = content_test q r same in
              let none_there : count (same_content q) rows ≡ 0 = rw alike (ground arith) in
              rw (same, none_there) (omega arith)
          | inr other ↦ let few = unique q in rw other (omega arith)
        ])
]

pub insert_rows-IsUnique : (rs rows : List RawRow) → IsUnique rows → IsUnique (insert_rows rs rows)
unfolding insert_rows
insert_rows-IsUnique [] rows unique = unique
insert_rows-IsUnique (r ∷ rs) rows unique =
    insert_rows-IsUnique rs (insert_row r rows) (insert_row-IsUnique r rows unique)

insert_row_grows :
    (r q : RawRow) (rows : List RawRow) → IsStored q rows → IsStored q (insert_row r rows)
unfolding insert_row
insert_row_grows r q rows stored =
    let more = count-append (same_content q) rows (r ∷ []) in ground arith

insert_row_there : (r : RawRow) (rows : List RawRow) → IsStored r (insert_row r rows)
unfolding insert_row count
insert_row_there r rows =
    let more = count-append (same_content r) rows (r ∷ []) in
    let own = own_content r in ground arith

insert_rows_grows :
    (rs : List RawRow) (q : RawRow) (rows : List RawRow)
    → IsStored q rows
    → IsStored q (insert_rows rs rows)
unfolding insert_rows
insert_rows_grows [] q rows stored = stored
insert_rows_grows (r ∷ rs) q rows stored =
    insert_rows_grows rs q (insert_row r rows) (insert_row_grows r q rows stored)

pub insert_rows_there : (rs rows : List RawRow) → All (λ r. IsStored r (insert_rows rs rows)) rs
unfolding insert_rows
insert_rows_there [] rows = tt
insert_rows_there (r ∷ rs) rows = (
  insert_rows_grows rs r (insert_row r rows) (insert_row_there r rows),
  insert_rows_there rs (insert_row r rows),
)

-- rows whose contents are there change nothing
pub insert_rows_stored :
    (rs rows : List RawRow) → All (λ r. IsStored r rows) rs → insert_rows rs rows ≡ rows
unfolding insert_rows insert_row
insert_rows_stored [] rows stored = refl
insert_rows_stored (r ∷ rs) rows stored =
    let there : (count (same_content r) rows == 0) ≡ false = let first = stored.0 in ground arith in
    rw there (insert_rows_stored rs rows stored.1)

insert_rows-append :
    (rs qs rows : List RawRow) → insert_rows (rs ++ qs) rows ≡ insert_rows qs (insert_rows rs rows)
unfolding insert_rows
insert_rows-append [] qs rows = refl
insert_rows-append (r ∷ rs) qs rows = insert_rows-append rs qs (insert_row r rows)

pub insert_chunks-eq-concat :
    (cs : List (List RawRow)) (rows : List RawRow)
    → insert_chunks cs rows ≡ insert_rows (concat cs) rows
unfolding insert_chunks insert_rows concat
insert_chunks-eq-concat [] rows = refl
insert_chunks-eq-concat (c ∷ cs) rows =
    insert_chunks-eq-concat cs (insert_rows c rows) ∙ sym (insert_rows-append c (concat cs) rows)
