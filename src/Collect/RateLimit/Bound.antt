-- ===== src/Collect/RateLimit/Bound.antt =====
-- LocalRateLimiter: at most `limit` calls in any minute.
use quant_stock.Base.{
  ℕ, suc, ◌+◌, ◌≡◌, ◌≤◌, ◌<◌, refl, sym, ap, ◌∙◌, Bool, false, ◌&&◌, none, some, List, [], ◌∷◌,
  ◌++◌, leb, ltb, length, arith, if◌then◌else◌, count, Bool-cases, inl, inr, length-append,
}
use quant_stock.Collect.RateLimit.{minute, evict, attempt, wait_for, Run, start, admit, delay}

-- an instant of the minute that starts at t
abbrev pub in_minute : ℕ → ℕ → Bool
in_minute t x = leb t x && ltb x (t + minute)

-- no instant that is a minute old or less leaves the window
count-evict :
    (t now : ℕ) (ws : List ℕ) → now < t + minute → count (leb t) (evict now ws) ≡ count (leb t) ws
unfolding evict count
count-evict t now [] h = refl
count-evict t now (w ∷ ws) h = elim (Bool-cases (leb (w + minute) now)) [
  | inl old ↦ rw (old, count-evict t now ws h) (skipped (leb t w) (ground arith))
  | inr fresh ↦ rw fresh
]
  where
    skipped :
        (b : Bool)
        → b ≡ false
        → count (leb t) ws ≡ (if b then suc (count (leb t) ws) else count (leb t) ws)
    skipped b e = rw e

count-in_minute : (t : ℕ) (xs : List ℕ) → count (in_minute t) xs ≤ count (leb t) xs
unfolding count
count-in_minute t [] = omega arith
count-in_minute t (x ∷ xs) = let rest = count-in_minute t xs in ground arith

count_le_length : (p : ℕ → Bool) (xs : List ℕ) → count p xs ≤ length xs
unfolding count
count_le_length p [] = omega arith
count_le_length p (x ∷ xs) = let rest = count_le_length p xs in ground arith

pub length-evict : (now : ℕ) (ws : List ℕ) → length (evict now ws) ≤ length ws
unfolding evict
length-evict now [] = omega arith
length-evict now (w ∷ ws) = let rest = length-evict now ws in ground arith

count_snoc : (p : ℕ → Bool) (xs : List ℕ) (x : ℕ) → count p (xs ++ x ∷ []) ≡ count p (x ∷ xs)
unfolding count
count_snoc p [] x = refl
count_snoc p (y ∷ ys) x = rw (count_snoc p ys x) (swap (p x) (p y))
  where
    swap :
        (a b : Bool)
        → (if b
            then suc (if a then suc (count p ys) else count p ys)
            else (if a then suc (count p ys) else count p ys))
          ≡ (if a
              then suc (if b then suc (count p ys) else count p ys)
              else (if b then suc (count p ys) else count p ys))
    swap a b = ground arith

-- the two outcomes of a turn
pub attempt-eq_none :
    (limit now : ℕ) (window left : List ℕ)
    → attempt limit now window ≡ (none, left)
    → (length (evict now window) < limit) × (left ≡ evict now window ++ now ∷ [])
unfolding attempt
attempt-eq_none limit now window left e =
    elim (Bool-cases (ltb (length (evict now window)) limit)) [
      | inl room ↦ (ground arith, let e' = rw room at e in cc)
      | inr full ↦ let e' = rw full at e in cc
    ]

pub attempt-eq_some :
    (limit now wait : ℕ) (window left : List ℕ)
    → attempt limit now window ≡ (some wait, left)
    → (limit ≤ length left) × (left ≡ evict now window) × (wait ≡ wait_for now left)
unfolding attempt
attempt-eq_some limit now wait window left e =
    elim (Bool-cases (ltb (length (evict now window)) limit)) [
      | inl room ↦ let e' = rw room at e in cc
      | inr full ↦
          let e' = rw full at e in
          let same : evict now window ≡ left = cc in
          (
            ground (arith, ap length same),
            sym same,
            let asked : wait_for now (evict now window) ≡ wait = cc in
                sym asked ∙ ap (wait_for now) same,
          )
    ]

-- the window holds at most `limit` instants, and every admission of the last minute
pub record Covers (limit now : ℕ) (log window : List ℕ) : Type 0 where
  pub fits : length window ≤ limit
  pub recent : (t : ℕ) → now < t + minute → count (leb t) log ≤ count (leb t) window

evict-Covers :
    {limit before now : ℕ} {log window : List ℕ}
    → Covers limit before log window
    → before ≤ now
    → Covers limit now log (evict now window)
evict-Covers {limit} {before} {now} {log} {window} c later = record {
  fits = omega (arith, length-evict now window, c.fits);
  recent = λ t h. omega (arith, c.recent t (omega arith), count-evict t now window h);
}

admit-Covers :
    {limit now : ℕ} {log window : List ℕ}
    → Covers limit now log window
    → length window < limit
    → Covers limit now (now ∷ log) (window ++ now ∷ [])
unfolding count
admit-Covers {limit} {now} {log} {window} c room = record {
  fits = omega (arith, length-append window (now ∷ []));
  recent = λ t h. rw (count_snoc (leb t) window now) (let old = c.recent t h in ground arith);
}

pub Run-Covers :
    {limit now : ℕ} {log window : List ℕ} → Run limit now log window → Covers limit now log window
Run-Covers {limit} (start now) = record { fits = omega arith; recent = λ t h. omega arith }
Run-Covers {limit}
      (admit {before = before} {now = now} {log = log} {window = window} {left = left} run later
        e) =
    let h = attempt-eq_none limit now window left e in
    rw h.1 (admit-Covers (evict-Covers (Run-Covers run) later) h.0)
Run-Covers {limit} (delay {now = now} {wait = wait} {window = window} {left = left} run later e) =
    rw ((attempt-eq_some limit now wait window left e).1) (evict-Covers (Run-Covers run) later)

-- Whatever the threads do and however long they sleep, as long as the clock does not go back, at most
-- `limit` of the calls under a key are admitted in any minute.
pub rate_bounded :
    {limit now : ℕ} {log window : List ℕ}
    → Run limit now log window
    → (t : ℕ) → count (in_minute t) log ≤ limit
unfolding count
rate_bounded {limit} (start now) t = omega arith
rate_bounded {limit}
      (admit {before = before} {now = now} {log = log} {window = window} {left = left} run later e)
      t =
    let c = evict-Covers (Run-Covers run) later in
    let h = attempt-eq_none limit now window left e in
    let shorter = count_le_length (leb t) (evict now window) in
    let fewer = count-in_minute t log in
    elim (Bool-cases (in_minute t now)) [
      | inl counted ↦ rw counted (let old = c.recent t (ground arith) in omega arith)
      | inr outside ↦ rw outside (rate_bounded run t)
    ]
rate_bounded {limit} (delay run later e) t = rate_bounded run t
