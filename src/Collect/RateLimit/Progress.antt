-- ===== src/Collect/RateLimit/Progress.antt =====
-- LocalRateLimiter.acquire: a call that has to wait is admitted when it wakes up.
use quant_stock.Base.{
  ℕ, suc, ◌+◌, ◌≡◌, ◌≤◌, ◌<◌, ap, true, none, some, List, [], ◌∷◌, ◌++◌, leb, ltb, length, arith,
}
use quant_stock.Collect.RateLimit.{minute, evict, attempt, wait_for, acquire_loop, acquire, Run}
use quant_stock.Collect.RateLimit.Bound.{Run-Covers, length-evict, attempt-eq_some}

-- once the wait is over, the oldest instant leaves a full window
evict_frees :
    (now later : ℕ) (left : List ℕ)
    → 0 < length left
    → now + wait_for now left ≤ later
    → length (evict later left) < length left
unfolding evict
evict_frees now later [] some_left over = omega arith
evict_frees now later (w ∷ ws) some_left over =
    let rest = length-evict later ws in
    let old : leb (w + minute) later ≡ true = ground arith in rw old (omega arith)

attempt-admits :
    (limit now : ℕ) (window : List ℕ)
    → length (evict now window) < limit
    → attempt limit now window ≡ (none, evict now window ++ now ∷ [])
unfolding attempt
attempt-admits limit now window room =
    let free : ltb (length (evict now window)) limit ≡ true = ground arith in rw free

-- A call that its first turn makes wait is admitted by its second, if no other call takes a turn
-- under the key meanwhile and the sleep lasts as long as asked: acquire returns the time waited.
pub acquire_second_turn :
    (n : ℕ) {before now later wait : ℕ} {log window left : List ℕ}
    → Run (suc n) before log window
    → before ≤ now
    → attempt (suc n) now window ≡ (some wait, left)
    → now + wait ≤ later
    → acquire (some (suc n)) (now ∷ later ∷ []) window ≡ some (wait, evict later left ++ later ∷ [])
unfolding acquire acquire_loop
acquire_second_turn n {now = now} {later = later} {wait = wait} {window = window} {left = left} run
      order e over =
    let h = attempt-eq_some (suc n) now wait window left e in
    let c = Run-Covers run in
    let kept = length-evict now window in
    let same = ap length h.1 in
    let freed = evict_frees now later left (omega arith) (omega (arith, h.2)) in
    let second = attempt-admits (suc n) later left (omega (arith, c.fits)) in
    let summed : 0 + wait ≡ wait = omega arith in
    rw (e, second) (ap (λ (t : ℕ). some (t, evict later left ++ later ∷ [])) summed)
