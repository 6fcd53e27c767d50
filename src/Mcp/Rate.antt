-- ===== src/Mcp/Rate.antt =====
-- crates/fndr-mcp/src/auth.rs: the rate limit over a sequence of requests.
use fndr.Prelude.{
  ℕ, suc, ◌+◌, ◌-◌, ◌/◌, ◌%◌, ◌^◌, ◌≤◌, ◌<◌, ◌≡◌, refl, Bool, true, false, List, [], ◌∷◌, arith,
  ltb, leb, length, All, min, Bool-cases, inl, inr, ltb→lt,
}
use fndr.Mcp.Auth.{RateWindow, allow}

-- The answers to a sequence of requests, each with its two readings of the clock.
unfoldable pub allow_all : RateWindow → ℕ → List (ℕ × ℕ) → List Bool
allow_all w per_second [] = []
allow_all w per_second ((now, later) ∷ times) =
    let (after, answer) = allow w now later per_second in answer ∷ allow_all after per_second times

abbrev pub count_true : List Bool → ℕ
count_true [] = 0
count_true (true ∷ bs) = suc (count_true bs)
count_true (false ∷ bs) = count_true bs

counted :
    (bs : List Bool) (k l n : ℕ)
    → count_true bs ≡ min l (n - (k + 1))
    → count_true (ltb k n ∷ bs) ≡ min (suc l) (n - k)
counted bs k l n e = elim (Bool-cases (ltb k n)) [
  | inl t ↦ rw t (omega (arith, ltb→lt k n t, e))
  | inr t ↦ let full : n ≤ k = ground arith in rw t (omega (arith, full, e))
]

-- Inside its window, a request only moves the counter.
allow-inside :
    (w : RateWindow) (now later per_second : ℕ)
    → now < w.window_start + 1000
    → w.count + 1 < 2 ^ 64
    → allow w now later per_second ≡ (record w { count = w.count + 1 }, ltb w.count per_second)
unfolding allow
allow-inside w now later n h b =
    let young : leb 1 ((now - w.window_start) / 1000) ≡ false = ground arith in
    let small : (w.count + 1) % 2 ^ 64 ≡ w.count + 1 = omega arith in rw (young, small) refl

-- Of the requests that fall into one window, fewer than the 2 ^ 64 at which the counter wraps, as
-- many pass as the limit has left.
pub allow_all-window :
    (w : RateWindow) (per_second : ℕ) (times : List (ℕ × ℕ))
    → All (λ (now, later). now < w.window_start + 1000) times
    → w.count + length times < 2 ^ 64
    → count_true (allow_all w per_second times) ≡ min (length times) (per_second - w.count)
unfolding allow_all
allow_all-window w n [] h b = omega arith
allow_all-window w n ((now, later) ∷ times) h b =
    let inside = allow-inside w now later n h.0 (omega arith) in
    let rest = allow_all-window (record w { count = w.count + 1 }) n times h.1 (omega arith) in
    rw inside (counted _ w.count (length times) n rest)
