-- ===== src/Collect/Executor/Paging/Chunks.antt =====
-- app/collect/executor.py, chunk_rows: the chunks are the list, cut.
use quant_stock.Base.{
  ℕ, zero, suc, ◌≡◌, ◌≤◌, ◌<◌, refl, ◌∙◌, ap, inl, inr, List, [], ◌∷◌, ◌++◌, leb, take, drop,
  length, take-append-drop, length-drop, length-take, arith, Bool-cases, All,
}
use quant_stock.Base.Result.{Result, ok, err}
use quant_stock.Collect.Executor.Paging.{chunks, chunk_rows}

-- the lists, one after the other
unfoldable pub concat {ℓ} : {A : Type ℓ} → List (List A) → List A
concat [] = []
concat (xs ∷ xss) = xs ++ concat xss

module _ {A : Type 0} where
  -- no chunk is empty or longer than the size
  abbrev pub IsCut : ℕ → List (List A) → Type 0
  IsCut size = All (λ xs. (0 < length xs) × (length xs ≤ size))

  abbrev pub ChunkOutcome : ℕ → List A → Result (List (List A)) → Type 0
  ChunkOutcome size values (ok xss) = (concat xss ≡ values) × IsCut size xss
  ChunkOutcome size values (err e) = size ≡ 0

  chunks_correct :
      (fuel size : ℕ) (values : List A)
      → 0 < size
      → length values ≤ fuel
      → (concat (chunks fuel size values) ≡ values) × IsCut size (chunks fuel size values)
  unfolding concat chunks
  chunks_correct zero size [] positive enough = (refl, tt)
  chunks_correct zero size (v ∷ vs) positive enough =
      let absurd : ⊥ = omega arith in elim absurd [ ]
  chunks_correct (suc fuel) size [] positive enough = (refl, tt)
  chunks_correct (suc fuel) size (v ∷ vs) positive enough =
      let dropped = length-drop size (v ∷ vs) in
      let taken = length-take size (v ∷ vs) in
      let rest = chunks_correct fuel size (drop size (v ∷ vs)) positive (omega arith) in
      (
        ap (λ xs. take size (v ∷ vs) ++ xs) rest.0 ∙ take-append-drop size (v ∷ vs),
        ((omega arith, omega arith), rest.1),
      )

  -- The chunks of a list, one after the other, are the list, and each has at least one row and at most as
  -- many as the size; the code raises only for the size 0.
  pub chunk_rows_exact :
      (size : ℕ) (values : List A) → ChunkOutcome size values (chunk_rows size values)
  unfolding chunk_rows
  chunk_rows_exact size values = elim (Bool-cases (leb size 0)) [
    | inl empty ↦ rw empty (ground arith)
    | inr positive ↦
        rw positive (chunks_correct (length values) size values (ground arith) (omega arith))
  ]
