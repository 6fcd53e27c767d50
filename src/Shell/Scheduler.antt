-- ===== src/Shell/Scheduler.antt =====
-- crates/fndr-shell/src/capture_scheduler.rs: when the pending chunks are flushed, and the drain at
-- shutdown. The capture half of a tick is the pipeline's `run_tick`.
use fndr.Prelude.{
  ℕ, zero, suc, ◌+◌, ◌-◌, ◌^◌, ◌<◌, ◌≤◌, min, ◌≡◌, refl, sym, subst, Option, none, some, Result, ok,
  err, arith, if◌then◌else◌, leb, ◌==◌, inl, inr, Bool-cases,
}
use fndr.Text.{Text}
use fndr.Store.{Store, pending_chunks}
use fndr.Store.Flush.{
  Derived, Flushed, Marked, FlushError, FlushReport, flush_batch_size, flush_once,
  flush_once-Marked,
}
use fndr.Store.Progress.{pending_count, pending_chunks-named, progress}

pub data FlushTickOutcome : Type 0 where
  not_due : FlushTickOutcome
  flushed : FlushReport → FlushTickOutcome
  failed : Text → FlushTickOutcome

-- `i64::try_from(now_ms).unwrap_or(i64::MAX)`.
abbrev pub i64 : ℕ → ℕ
i64 n = min n (2 ^ 63 - 1)

module _ {W V E : Type 0} (on : Derived W V E) where
  -- The store, the world, `last_successful_flush_ms` and the answer.
  abbrev pub Drained : Type 0
  Drained = Store × W × ℕ × Result ℕ (FlushError E)

  -- The outer `none` is a loop that runs out of fuel.
  unfoldable pub flush_on_shutdown : ℕ → Store → W → ℕ → ℕ → ℕ → Option Drained
  flush_on_shutdown zero s w last now_ms written = none
  flush_on_shutdown (suc fuel) s w last now_ms written =
      let (after, world, answer) = flush_once on s w (i64 now_ms) in
      elim answer [
        | err e ↦ some (after, world, last, err e)
        | ok report ↦
            let rest = flush_on_shutdown fuel after world last now_ms (written + report.written) in
            if report.written == 0
            then some (after, world, now_ms, ok (written + report.written))
            else rest
      ]

  -- The flush of the scheduler, `error_text` being what its errors print, …
  abbrev pub after_flush :
      (FlushError E → Text) → ℕ → ℕ → Flushed on → Store × W × ℕ × FlushTickOutcome
  after_flush error_text last now_ms (s, w, ok report) = (s, w, now_ms, flushed report)
  after_flush error_text last now_ms (s, w, err e) = (s, w, last, failed (error_text e))

  -- … and the part of `tick` behind the capture.
  unfoldable pub flush_if_due :
      (FlushError E → Text) → ℕ → Store → W → ℕ → ℕ → Store × W × ℕ × FlushTickOutcome
  flush_if_due error_text flush_interval_ms s w last now_ms =
      let done = after_flush error_text last now_ms (flush_once on s w (i64 now_ms)) in
      if leb flush_interval_ms (now_ms - last) then done else (s, w, last, not_due)

  abbrev FailsSafely : Store → ℕ → Store × W × ℕ × FlushTickOutcome → Type 0
  FailsSafely s last (after, w, clock, o) = (m : Text) → o ≡ failed m → (after ≡ s) × (clock ≡ last)

  after_flush-FailsSafely :
      (error_text : FlushError E → Text) (s : Store) (last now_ms n : ℕ) (f : Flushed on)
      → Marked on s n (pending_chunks s flush_batch_size) f
      → FailsSafely s last (after_flush error_text last now_ms f)
  after_flush-FailsSafely error_text s last now n (after, w, ok report) k m e = absurd (cc e)
  after_flush-FailsSafely error_text s last now n (after, w, err x) k m e = (k, refl)

  -- A flush that is due and fails leaves the store as it was, and is due at every later time.
  pub flush_if_due_retries :
      (error_text : FlushError E → Text) (flush_interval_ms : ℕ) (s : Store) (w : W)
      (last now_ms later_ms : ℕ) (message : Text)
      → (flush_if_due error_text flush_interval_ms s w last now_ms).3 ≡ failed message
      → now_ms ≤ later_ms
      → ((flush_if_due error_text flush_interval_ms s w last now_ms).0 ≡ s)
        × (flush_interval_ms
            ≤ later_ms - (flush_if_due error_text flush_interval_ms s w last now_ms).2)
  unfolding flush_if_due
  flush_if_due_retries text interval s w last now later m e le =
      elim (Bool-cases (leb interval (now - last))) [
        | inl due ↦
            let (same, clock) =
              after_flush-FailsSafely text s last now (i64 now) (flush_once on s w (i64 now))
                (flush_once-Marked on s w (i64 now)) m (rw due at e) in
            rw (due) (same, rw clock (ground arith))
        | inr early ↦ absurd (cc (rw early at e))
      ]

  -- Whatever the embedder and Lance answer, the drain at shutdown ends, with an answer, within one
  -- round more than there are pending chunks; the clock must not read 0, which marks a pending
  -- chunk.
  pub flush_on_shutdown_total :
      (fuel : ℕ) (s : Store) (w : W) (last now_ms written : ℕ)
      → 0 < now_ms
      → pending_count s < fuel
      → (result : Drained) × (flush_on_shutdown fuel s w last now_ms written ≡ some result)
  unfolding flush_on_shutdown
  flush_on_shutdown_total zero s w last now n h b = absurd (omega arith)
  flush_on_shutdown_total (suc fuel) s w last now n h b =
      go (λ t v m. flush_on_shutdown_total fuel t v last now m h) (flush_once on s w (i64 now))
        (flush_once-Marked on s w (i64 now))
    where
      go :
          ((t : Store) (v : W) (m : ℕ)
            → pending_count t < fuel
            → (result : Drained) × (flush_on_shutdown fuel t v last now m ≡ some result))
          → (f : Flushed on) → Marked on s (i64 now) (pending_chunks s flush_batch_size) f
          → (result : Drained) × ((let (after, world, answer) = f in
                elim answer as (λ _. Option (Drained)) [
                  | err e ↦ some (after, world, last, err e)
                  | ok report ↦
                      let rest = flush_on_shutdown fuel after world last now (n + report.written) in
                      if report.written == 0
                      then some (after, world, now, ok (n + report.written))
                      else rest
                ])
              ≡ some result)
      go again (after, world, err e) k = ((after, world, last, err e), refl)
      go again (after, world, ok report) (size, marked) = elim (Bool-cases (report.written == 0)) [
        | inl e ↦ ((after, world, now, ok (n + report.written)), rw e)
        | inr e ↦
            let less : pending_count after < pending_count s =
              subst (λ t. pending_count t < pending_count s) (sym marked)
                (progress s (pending_chunks s flush_batch_size) (i64 now) (ground arith)
                  (ground arith) (pending_chunks-named s flush_batch_size)) in
            let (r, q) = again after world (n + report.written) (omega arith) in (r, rw e q)
      ]
