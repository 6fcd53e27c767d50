-- ===== src/Capture/Dedup/Expiry.antt =====
-- The semantic window against the whole history of its calls.
use native.Mathlib.Nat.{le_trans}
use fndr.Prelude.{
  ℕ, ◌≤◌, ◌≡◌, refl, sym, subst, inl, inr, Bool, List, [], ◌∷◌, Option, none, some, arith,
  if◌then◌else◌, ◌==◌, Bool-cases,
}
use fndr.Capture.Dedup.Semantic
use fndr.Capture.Dedup.Semantic.{SemanticDedupWindow, is_fresh, retain, insert}

-- The semantic window: `(signature, now_ms)` for each call, newest first.
abbrev pub last_seen : ℕ → List (ℕ × ℕ) → Option ℕ
last_seen k [] = none
last_seen k ((j, t) ∷ h) = if k == j then some t else last_seen k h

unfoldable pub suppressed : ℕ → SemanticDedupWindow → List (ℕ × ℕ) → List Bool
suppressed window_ms w [] = []
suppressed window_ms w ((k, now) ∷ calls) =
    (Semantic.should_skip w k now window_ms).1
    ∷ suppressed window_ms (Semantic.should_skip w k now window_ms).0 calls

-- The rule over the history: seen, and the last time at most `window_ms` ago.
unfoldable pub repeats : ℕ → List (ℕ × ℕ) → List (ℕ × ℕ) → List Bool
repeats window_ms history [] = []
repeats window_ms history ((k, now) ∷ calls) =
    is_fresh now window_ms (last_seen k history) ∷ repeats window_ms ((k, now) ∷ history) calls

-- The clock of the calls does not run backwards.
abbrev pub Chronological : ℕ → List (ℕ × ℕ) → Type 0
Chronological n [] = Unit
Chronological n ((k, now) ∷ calls) = (n ≤ now) × Chronological now calls

abbrev Agrees : ℕ → ℕ → (ℕ → Option ℕ) → List (ℕ × ℕ) → Type 0
Agrees w n m h = (k now : ℕ) → n ≤ now → is_fresh now w (m k) ≡ is_fresh now w (last_seen k h)

fresh_retain :
    (w n now : ℕ) (m : ℕ → Option ℕ) (k : ℕ)
    → n ≤ now
    → is_fresh now w (retain n w m k) ≡ is_fresh now w (m k)
unfolding retain
fresh_retain w n now m k h = ground arith

Agrees-insert :
    (w n : ℕ) (m : ℕ → Option ℕ) (h : List (ℕ × ℕ)) (k : ℕ)
    → Agrees w n m h
    → Agrees w n (insert k n (retain n w m)) ((k, n) ∷ h)
unfolding insert
Agrees-insert w n m h k agrees j now le =
    ground (arith, fresh_retain w n now m j le, agrees j now le)

state :
    (s : SemanticDedupWindow) (k now w : ℕ)
    → (Semantic.should_skip s k now w).0.seen_at_ms ≡ insert k now (retain now w s.seen_at_ms)
unfolding Semantic.should_skip
state s k now w = elim (Bool-cases (is_fresh now w (retain now w s.seen_at_ms k))) [
  | inl e ↦ rw e
  | inr e ↦ rw e
]

result :
    (s : SemanticDedupWindow) (k now w : ℕ)
    → (Semantic.should_skip s k now w).1 ≡ is_fresh now w (retain now w s.seen_at_ms k)
unfolding Semantic.should_skip
result s k now w = elim (Bool-cases (is_fresh now w (retain now w s.seen_at_ms k))) [
  | inl e ↦ rw e
  | inr e ↦ rw e
]

suppressed-repeats :
    (w n : ℕ) (s : SemanticDedupWindow) (h calls : List (ℕ × ℕ))
    → Agrees w n s.seen_at_ms h
    → Chronological n calls
    → suppressed w s calls ≡ repeats w h calls
unfolding suppressed repeats
suppressed-repeats w n s h [] agrees c = refl
suppressed-repeats w n s h ((k, now) ∷ calls) agrees c =
    let s' = (Semantic.should_skip s k now w).0 in
    let here : Agrees w now s.seen_at_ms h = λ j t le. agrees j t (le_trans c.0 le) in
    let next : Agrees w now s'.seen_at_ms ((k, now) ∷ h) =
      subst (λ m. Agrees w now m ((k, now) ∷ h)) (sym (state s k now w))
        (Agrees-insert w now s.seen_at_ms h k here) in
    cc (
      result s k now w,
      fresh_retain w now now s.seen_at_ms k (omega arith),
      agrees k now c.0,
      suppressed-repeats w now s' ((k, now) ∷ h) calls next c.1,
    )

-- While the clock does not run backwards, the window suppresses exactly the signatures whose last
-- occurrence in the whole history, suppressed or not, is at most the window's length ago.
pub semantic_refines :
    (window_ms start : ℕ) (calls : List (ℕ × ℕ))
    → Chronological start calls
    → suppressed window_ms Semantic.default calls ≡ repeats window_ms [] calls
unfolding Semantic.default
semantic_refines w start calls c =
    suppressed-repeats w start Semantic.default [] calls (λ k now le. refl) c
