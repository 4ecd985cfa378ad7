-- ===== src/Collect/Executor/Paging/Pages.antt =====
-- app/collect/executor.py, next_offset_page_params: the pages of a result, one after the other.
use quant_stock.Base.{
  lt→ltb, ℕ, zero, suc, ◌+◌, ◌-◌, ◌≡◌, ◌≤◌, ◌<◌, refl, min, false, inl, inr, String, Option, none,
  some, List, [], ◌∷◌, leb, ltb, Bool-cases, arith, if◌then◌else◌,
}
use quant_stock.Base.Result.{Result, ok}
use quant_stock.Base.Json.{num, Dict, get, put, get_or, to_int, truthy, get-put}
use quant_stock.Collect.Executor.Paging.{number_or, next_offset_page_params}

-- the parameters ask for a page
abbrev pub Asks : ℕ → ℕ → Dict → Type 0
Asks size offset params =
    (get params "limit" ≡ some (num size)) × (get params "offset" ≡ some (num offset))

module _ (total : ℕ) (most : Option ℕ) where
  after_page : (Dict → List Dict) → Result (Option Dict) → List Dict
  after_page rest (ok (some next)) = rest next
  after_page rest _ = []

  -- The requests for the pages of a result of `total` rows, of which the provider answers those from the
  -- offset, at most as many as the limit.
  unfoldable pub requests : ℕ → ℕ → ℕ → Dict → List Dict
  unfolding after_page
  requests zero size offset params = []
  requests (suc fuel) size offset params =
      params
      ∷ after_page (requests fuel size (offset + size))
          (next_offset_page_params params (min size (total - offset)) most (some "offset"))

-- the requests ask for one page after the other, and the last for the page in which the result ends
abbrev pub Pages : ℕ → ℕ → ℕ → List Dict → Type 0
Pages total size offset [] = ⊥
Pages total size offset (p ∷ []) = Asks size offset p × (total < offset + size)
Pages total size offset (p ∷ q ∷ qs) =
    Asks size offset p × (offset + size ≤ total) × Pages total size (offset + size) (q ∷ qs)

read_positive :
    (params : Dict) (key : String) (n d : ℕ)
    → get params key ≡ some (num (suc n))
    → to_int (get_or params key (num d)) ≡ ok (suc n)
unfolding get_or to_int truthy
read_positive params key n d e = rw (e, lt→ltb 0 (suc n) (omega arith)) refl

read_offset :
    (params : Dict) (key : String) (n : ℕ)
    → get params key ≡ some (num n)
    → to_int (get_or params key (num 0)) ≡ ok n
unfolding get_or to_int truthy
read_offset params key zero e = rw e refl
read_offset params key (suc n) e = rw (e, lt→ltb 0 (suc n) (omega arith)) refl

next_of_page :
    (rows size offset : ℕ) (most : Option ℕ) (params : Dict)
    → Asks (suc size) offset params
    → next_offset_page_params params rows most (some "offset")
      ≡ ok (
          if ltb rows (suc size)
          then none
          else some (put (put params "limit" (num (suc size))) "offset" (num (offset + suc size))))
unfolding next_offset_page_params
next_of_page rows size offset most params (limit, at) =
    let sized : leb (suc size) 0 ≡ false = ground arith in
    rw (read_positive params "limit" size (number_or most 0) limit, sized)
      (elim (Bool-cases (ltb rows (suc size))) [
        | inl short ↦ rw short refl
        | inr full ↦ rw (full, read_offset params "offset" offset at) refl
      ])

put-Asks :
    (params : Dict) (size offset : ℕ)
    → Asks size offset (put (put params "limit" (num size)) "offset" (num offset))
put-Asks params size offset = (
  rw
      (
        get-put (put params "limit" (num size)) "offset" "limit" (num offset),
        get-put params "limit" "limit" (num size),
      )
      refl,
  rw (get-put (put params "limit" (num size)) "offset" "offset" (num offset)) refl,
)

cons-Pages :
    (total size offset : ℕ) (p : Dict) (ps : List Dict)
    → Asks size offset p
    → offset + size ≤ total
    → Pages total size (offset + size) ps
    → Pages total size offset (p ∷ ps)
cons-Pages total size offset p [] asks more rest = elim rest [ ]
cons-Pages total size offset p (q ∷ qs) asks more rest = (asks, more, rest)

-- The pages of a result of any size are asked for one after the other: each request names the offset at which
-- the page before it ended, no page overlaps another, and the last is the page in which the result ends; a
-- request for each row and one more are enough.
pub requests_cover :
    (total : ℕ) (most : Option ℕ) (fuel size offset : ℕ) (params : Dict)
    → 0 < size
    → Asks size offset params
    → offset ≤ total
    → total < offset + fuel
    → Pages total size offset (requests total most fuel size offset params)
unfolding requests
requests_cover total most zero size offset params positive asks low enough =
    let absurd : ⊥ = omega arith in elim absurd [ ]
requests_cover total most (suc fuel) zero offset params positive asks low enough =
    let absurd : ⊥ = omega arith in elim absurd [ ]
requests_cover total most (suc fuel) (suc size) offset params positive asks low enough =
    let rows = min (suc size) (total - offset) in
    let next = next_of_page rows size offset most params asks in
    elim (Bool-cases (ltb rows (suc size))) [
      | inl short ↦ rw (next, short) (asks, ground arith)
      | inr full ↦
          let more =
            requests_cover total most fuel (suc size) (offset + suc size) _ positive
              (put-Asks params (suc size) (offset + suc size)) (ground arith) (omega arith) in
          rw (next, full) (cons-Pages total (suc size) offset params _ asks (ground arith) more)
    ]
