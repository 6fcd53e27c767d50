-- ===== src/Capture/Dedup/Semantic.antt =====
-- `SemanticDedupWindow`. The hash map is a function from signatures.
use fndr.Prelude.{ℕ, ◌-◌, Bool, true, false, Option, none, some, if◌then◌else◌, leb, ◌==◌}

pub record SemanticDedupWindow : Type 0 where
  pub seen_at_ms : ℕ → Option ℕ

unfoldable pub default : SemanticDedupWindow
default = record { seen_at_ms = λ _. none }

-- `now_ms.saturating_sub(seen_at) <= window_ms`, of an entry that may be absent.
abbrev pub is_fresh : ℕ → ℕ → Option ℕ → Bool
is_fresh now_ms window_ms none = false
is_fresh now_ms window_ms (some seen_at) = leb (now_ms - seen_at) window_ms

unfoldable pub retain : ℕ → ℕ → (ℕ → Option ℕ) → ℕ → Option ℕ
retain now_ms window_ms m k = if is_fresh now_ms window_ms (m k) then m k else none

unfoldable pub insert : ℕ → ℕ → (ℕ → Option ℕ) → ℕ → Option ℕ
insert k v m j = if j == k then some v else m j

unfoldable pub should_skip : SemanticDedupWindow → ℕ → ℕ → ℕ → SemanticDedupWindow × Bool
should_skip w signature now_ms window_ms =
    let kept = retain now_ms window_ms w.seen_at_ms in
    if is_fresh now_ms window_ms (kept signature)
    then (record { seen_at_ms = insert signature now_ms kept }, true)
    else (record { seen_at_ms = insert signature now_ms kept }, false)
