-- ===== src/Collect/RateLimit.antt =====
-- app/collect/rate_limit.py, class LocalRateLimiter: a sliding window of a minute for each key.
-- The clock is outside the code: each turn of the loop is given the instant that it reads.
pub mod Bound
pub mod Progress
mod Examples
use quant_stock.Base.{
  ℕ, zero, suc, ◌+◌, ◌-◌, ◌≡◌, ◌≤◌, Bool, true, false, String, Option, none, some, List, [], ◌∷◌,
  ◌++◌, leb, ltb, length, if◌then◌else◌,
}

-- 60.0 seconds, in microseconds
abbrev pub minute : ℕ
minute = 60_000_000

-- `while window and window[0] <= cutoff: window.popleft()`
unfoldable pub evict : ℕ → List ℕ → List ℕ
evict now [] = []
evict now (w ∷ ws) = let rest = evict now ws in if leb (w + minute) now then rest else w ∷ ws

-- max(0.0, 60.0 - (now - window[0]))
abbrev pub wait_for : ℕ → List ℕ → ℕ
wait_for now [] = 0
wait_for now (w ∷ ws) = (w + minute) - now

-- one turn of the loop under the lock: the wait that it asks for, if it does not admit the call, and
-- the window that it leaves
unfoldable pub attempt : ℕ → ℕ → List ℕ → Option ℕ × List ℕ
attempt limit now window =
    let kept = evict now window in
    if ltb (length kept) limit then (none, kept ++ now ∷ []) else (some (wait_for now kept), kept)

-- return, or sleep and go round the loop
abbrev pub settle : ℕ → (ℕ → List ℕ → Option (ℕ × List ℕ)) → Option ℕ × List ℕ → Option (ℕ × List ℕ)
settle total again (none, window) = some (total, window)
settle total again (some wait, window) = again (total + wait) window

-- the loop, over the instants that the clock will read; none, where they run out before it returns
unfoldable pub acquire_loop : ℕ → List ℕ → ℕ → List ℕ → Option (ℕ × List ℕ)
acquire_loop limit [] total window = none
acquire_loop limit (now ∷ later) total window =
    settle total (acquire_loop limit later) (attempt limit now window)

-- acquire: the limit may be missing or 0, and then nothing is limited
unfoldable pub acquire : Option ℕ → List ℕ → List ℕ → Option (ℕ × List ℕ)
acquire none clock window = some (0, window)
acquire (some zero) clock window = some (0, window)
acquire (some (suc n)) clock window = acquire_loop (suc n) clock 0 window

-- What happens to the window of one key, by any number of threads: the instant of the last turn, the
-- instants at which calls were admitted, newest first, and the window.
pub data Run (limit : ℕ) : ℕ → List ℕ → List ℕ → Type 0 where
  start : (now : ℕ) → Run limit now [] []
  admit :
      {before now : ℕ} {log window left : List ℕ}
      → Run limit before log window
      → before ≤ now
      → attempt limit now window ≡ (none, left)
      → Run limit now (now ∷ log) left
  delay :
      {before now wait : ℕ} {log window left : List ℕ}
      → Run limit before log window
      → before ≤ now
      → attempt limit now window ≡ (some wait, left)
      → Run limit now log left
