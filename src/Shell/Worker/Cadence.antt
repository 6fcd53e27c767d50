-- ===== src/Shell/Worker/Cadence.antt =====
-- crates/fndr-shell/src/capture_worker.rs: when the worker captures, and how its loop ends.
use fndr.Prelude.{ℕ, ◌-◌, ◌≤◌, ◌≡◌, refl, min, Bool, false, List, [], ◌∷◌, ◌++◌, arith, if-cases}
use fndr.Capture.Sampling.{SamplingPolicy, SamplingDecision, capture_now, wait, deep_idle, decide}
use fndr.Shell.Worker.{
  CaptureLoop, shutdown, set_paused, Received, command, nothing, disconnected, Turn, Worker, Action,
  ticked, acknowledged, drained, Loop, going, returned, from_millis, finish, apply_command, receive,
  capture, awake, iterate, run_turns, fresh_worker, run_capture_loop,
}

-- The shortest time between two captures that a policy allows.
abbrev pub spacing : SamplingPolicy → ℕ
spacing p = min (min p.active_interval p.idle_interval) p.forced_capture_after

-- No capture comes while capture is paused, nor sooner than the spacing after the one before, and
-- nothing comes after the drain.
abbrev pub Obeys : SamplingPolicy → Bool → ℕ → List Action → Type 0
Obeys p paused last [] = Unit
Obeys p paused last (ticked now ∷ rest) =
    (paused ≡ false) × (spacing p ≤ from_millis (now - last)) × Obeys p paused now rest
Obeys p paused last (acknowledged next ∷ rest) = Obeys p next last rest
Obeys p paused last (drained now ∷ rest) = rest ≡ []

module _ {S O E : Type 0} (cl : CaptureLoop S O E) (p : SamplingPolicy) where
  -- What follows an iteration's actions: those of a loop in the state that it leaves.
  abbrev Follows : Loop S O E → List Action → Type 0
  Follows (going w) rest = Obeys p w.paused w.last_capture_ms rest
  Follows (returned s answer) rest = rest ≡ []

  -- A decision to capture keeps the spacing.
  due : (idle since : ℕ) → decide p idle since ≡ capture_now → spacing p ≤ since
  unfolding decide
  due idle since h = ground arith

  receive-Obeys :
      (w : Worker S O) (r : Received) (finish_now : ℕ) (rest : List Action)
      → Follows (receive cl w r finish_now).1 rest
      → Obeys p w.paused w.last_capture_ms ((receive cl w r finish_now).0 ++ rest)
  unfolding receive apply_command finish
  receive-Obeys w (command shutdown) finish_now rest h = h
  receive-Obeys w (command (set_paused next)) finish_now rest h = h
  receive-Obeys w nothing finish_now rest h = h
  receive-Obeys w disconnected finish_now rest h = h

  awake-Obeys :
      (d : SamplingDecision) (w : Worker S O) (t : Turn) (rest : List Action)
      → w.paused ≡ false
      → decide p t.idle (from_millis (t.now - w.last_capture_ms)) ≡ d
      → Follows (awake cl d w t).1 rest
      → Obeys p w.paused w.last_capture_ms ((awake cl d w t).0 ++ rest)
  unfolding awake
  awake-Obeys capture_now w t rest e d h = (
    e,
    due _ _ d,
    unfold capture in receive-Obeys (capture cl w t.now) t.received t.finish_now rest h,
  )
  awake-Obeys (wait left) w t rest e d h = receive-Obeys w t.received t.finish_now rest h
  awake-Obeys deep_idle w t rest e d h = receive-Obeys w t.received t.finish_now rest h

  iterate-Obeys :
      (w : Worker S O) (t : Turn) (rest : List Action)
      → Follows (iterate cl p w t).1 rest
      → Obeys p w.paused w.last_capture_ms ((iterate cl p w t).0 ++ rest)
  unfolding iterate
  iterate-Obeys w t rest =
      if-cases
        (λ ((actions, l) : List Action × Loop S O E).
          Follows l rest → Obeys p w.paused w.last_capture_ms (actions ++ rest))
        w.paused (λ e. receive-Obeys _ t.received t.finish_now rest)
        (λ e. awake-Obeys _ _ t rest e refl)

  Follows-end :
      (l : Loop S O E) (ts : List Turn)
      → ((w : Worker S O) → Obeys p w.paused w.last_capture_ms (run_turns cl p ts (going w)).0)
      → Follows l (run_turns cl p ts l).0
  unfolding run_turns
  Follows-end (going w) ts ih = ih w
  Follows-end (returned s answer) [] ih = refl
  Follows-end (returned s answer) (t ∷ ts) ih = refl

  run_turns-Obeys :
      (turns : List Turn) (w : Worker S O)
      → Obeys p w.paused w.last_capture_ms (run_turns cl p turns (going w)).0
  unfolding run_turns
  run_turns-Obeys [] w = tt
  run_turns-Obeys (t ∷ ts) w =
      iterate-Obeys w t _ (Follows-end (iterate cl p w t).1 ts (λ v. run_turns-Obeys ts v))

  -- Whatever happens around the loop, it captures only while it is not paused, two captures are at
  -- least as far apart as the shortest of the two cadences and the forced interval, pauses
  -- included, and nothing follows the drain.
  pub run_capture_loop-Obeys :
      (s : S) (turns : List Turn) → Obeys p false 0 (run_capture_loop cl p s turns).0
  unfolding run_capture_loop fresh_worker
  run_capture_loop-Obeys s turns = run_turns-Obeys turns (fresh_worker cl s)
