-- ===== src/Collect/Executor/Finalize/Watermarks.antt =====
-- app/collect/executor.py, _finalize_task_if_complete: the watermark of a data item only grows.
use quant_stock.Base.{
  ℕ, suc, ◌≡◌, ◌<◌, Bool, true, false, ◌&&◌, inl, inr, ◌⊎◌, Option, some, List, [], ◌∷◌, ◌==◌, leb,
  str_eq_iff, count, update, Bool-cases, count-append, arith, if◌then◌else◌,
}
use quant_stock.Collect.Model.{CollectTask, SourceBinding, DataWatermark}
use quant_stock.Collect.Executor.Finalize.{Mark, is_mark, move, mark_row, new_mark, move_watermark}

-- an instant lies in a range with two ends
abbrev pub in_range : Option ℕ → Option ℕ → ℕ → Bool
in_range (some a) (some b) x = leb a x && leb x b
in_range _ _ x = false

-- a watermark of the item, the scope and the frequency says that the instant is collected
abbrev pub marks : ℕ → Mark → ℕ → DataWatermark → Bool
marks data_item_id m x w =
    is_mark data_item_id m w && in_range w.initialized_from w.initialized_to x

counted : (b : Bool) {n : ℕ} → 0 < n → 0 < (if b then suc n else n)
counted true h = omega arith
counted false h = h

module _ (now : ℕ) (m : Mark) (t : CollectTask) (binding : SourceBinding) where
  mark_row_keeps :
      (x : ℕ) (w : DataWatermark)
      → marks t.data_item_id m x w ≡ true
      → marks t.data_item_id m x (mark_row now m t w) ≡ true
  unfolding mark_row move
  mark_row_keeps x w h = ground arith

  mark_row_covers :
      (x : ℕ) (w : DataWatermark)
      → is_mark t.data_item_id m w ≡ true
      → in_range t.time_start t.time_end x ≡ true
      → marks t.data_item_id m x (mark_row now m t w) ≡ true
  unfolding mark_row move
  mark_row_covers x w h inside = ground arith

  -- the head of the rows after the UPDATE
  head_keeps :
      (x : ℕ) (w : DataWatermark)
      → marks t.data_item_id m x w ≡ true
      → marks t.data_item_id m x (if is_mark t.data_item_id m w then mark_row now m t w else w)
        ≡ true
  head_keeps x w h = elim (Bool-cases (is_mark t.data_item_id m w)) [
    | inl mine ↦ rw mine (mark_row_keeps x w h)
    | inr other ↦ rw other h
  ]

  update_keeps :
      (x : ℕ) (rows : List DataWatermark)
      → 0 < count (marks t.data_item_id m x) rows
      → 0
        < count
            (marks t.data_item_id m x)
            (update (is_mark t.data_item_id m) (mark_row now m t) rows)
  unfolding count update
  update_keeps x [] h = omega arith
  update_keeps x (w ∷ ws) h = elim (Bool-cases (marks t.data_item_id m x w)) [
    | inl there ↦ rw (head_keeps x w there) (omega arith)
    | inr absent ↦ counted _ (update_keeps x ws (rw absent at h))
  ]

  update_covers :
      (x : ℕ) (rows : List DataWatermark)
      → in_range t.time_start t.time_end x ≡ true
      → 0 < count (is_mark t.data_item_id m) rows
      → 0
        < count
            (marks t.data_item_id m x)
            (update (is_mark t.data_item_id m) (mark_row now m t) rows)
  unfolding count update
  update_covers x [] inside h = omega arith
  update_covers x (w ∷ ws) inside h = elim (Bool-cases (is_mark t.data_item_id m w)) [
    | inl mine ↦ rw (mine, mark_row_covers x w mine inside) (omega arith)
    | inr other ↦ counted _ (update_covers x ws inside (rw other at h))
  ]

  own_mark : is_mark t.data_item_id m (new_mark m t binding) ≡ true
  own_mark = ground (arith, str_eq_iff m.scope_key m.scope_key, str_eq_iff m.frequency m.frequency)

  -- Once a task is complete, the watermark of its item, scope and frequency marks every instant that it marked
  -- before, and every instant of the task's own range.
  pub move_watermark_grows :
      (x : ℕ) (rows : List DataWatermark)
      → (0 < count (marks t.data_item_id m x) rows) ⊎ (in_range t.time_start t.time_end x ≡ true)
      → 0 < count (marks t.data_item_id m x) (move_watermark now m t binding rows)
  unfolding move_watermark count
  move_watermark_grows x rows h = elim (Bool-cases (count (is_mark t.data_item_id m) rows == 0)) [
    | inl absent ↦ rw absent (elim h [
      | inl before ↦ update_keeps x _ (
          let more = count-append (marks t.data_item_id m x) rows (new_mark m t binding ∷ []) in
          omega arith)
      | inr inside ↦ update_covers x _ inside (
          let more = count-append (is_mark t.data_item_id m) rows (new_mark m t binding ∷ []) in
          let own = own_mark in ground arith)
    ])
    | inr there ↦ rw there (elim h [
      | inl before ↦ update_keeps x rows before
      | inr inside ↦ update_covers x rows inside (ground arith)
    ])
  ]
