-- ===== src/Shell/Worker/Ending.antt =====
-- crates/fndr-shell/src/capture_worker.rs: how the worker's loop ends, and what it reports.
use fndr.Prelude.{
  ℕ, ◌+◌, ◌%◌, ◌^◌, ◌≡◌, refl, ap, subst, Bool, true, false, List, [], ◌∷◌, ◌++◌, arith, if-cases,
}
use fndr.Capture.Sampling.{SamplingPolicy, SamplingDecision, capture_now, wait, deep_idle}
use fndr.Shell.Worker.{
  CaptureLoop, shutdown, set_paused, Received, command, nothing, disconnected, Turn, Worker, Action,
  ticked, acknowledged, drained, Loop, going, returned, report_of, finish, apply_command, receive,
  capture, awake, iterate, run_turns, fresh_worker, run_capture_loop,
}

-- The captures in a list of actions.
abbrev pub count_ticks : List Action → ℕ
count_ticks [] = 0
count_ticks (ticked now ∷ rest) = count_ticks rest + 1
count_ticks (acknowledged next ∷ rest) = count_ticks rest
count_ticks (drained now ∷ rest) = count_ticks rest

-- The drain is the last action of a loop that has returned, and there is none in one that has not.
abbrev pub EndsDrained : List Action → Bool → Type 0
EndsDrained [] has_returned = has_returned ≡ false
EndsDrained (drained now ∷ rest) has_returned = (has_returned ≡ true) × (rest ≡ [])
EndsDrained (ticked now ∷ rest) has_returned = EndsDrained rest has_returned
EndsDrained (acknowledged next ∷ rest) has_returned = EndsDrained rest has_returned

module _ {S O E : Type 0} (cl : CaptureLoop S O E) (p : SamplingPolicy) where
  -- How a loop that has captured `n` times before stands after its actions.
  abbrev pub Accounts : ℕ → List Action → Loop S O E → Type 0
  Accounts n actions (going w) =
      EndsDrained actions false × (w.ticks ≡ (n + count_ticks actions) % 2 ^ 64)
  Accounts n actions (returned s answer) =
      EndsDrained actions true
      × ((before : S) × (now : ℕ) × (s ≡ (cl.flush_on_shutdown before now).0)
          × (answer
              ≡ report_of cl ((n + count_ticks actions) % 2 ^ 64)
                  (cl.flush_on_shutdown before now).1))

  -- What the rest of a run must be, after an iteration.
  abbrev Continues : Loop S O E → List Action → Loop S O E → Type 0
  Continues (going v) rest end = (m : ℕ) → v.ticks ≡ m % 2 ^ 64 → Accounts m rest end
  Continues (returned s answer) rest end = (rest ≡ []) × (end ≡ returned s answer)

  acknowledged-Accounts :
      (n : ℕ) (next : Bool) (rest : List Action) (end : Loop S O E)
      → Accounts n rest end
      → Accounts n (acknowledged next ∷ rest) end
  acknowledged-Accounts n next rest (going w) h = h
  acknowledged-Accounts n next rest (returned s answer) h = h

  ticked-Accounts :
      (n now : ℕ) (rest : List Action) (end : Loop S O E)
      → Accounts (n + 1) rest end
      → Accounts n (ticked now ∷ rest) end
  ticked-Accounts n now rest (going w) (d, e) = (d, omega (arith, e))
  ticked-Accounts n now rest (returned s answer) (d, (before, at, e, f)) = (
    d,
    (
      before,
      at,
      e,
      subst (λ k. answer ≡ report_of cl (k % 2 ^ 64) (cl.flush_on_shutdown before at).1)
          (omega arith) f,
    ),
  )

  finish-Accounts :
      (n : ℕ) (w : Worker S O) (now : ℕ) (rest : List Action) (end : Loop S O E)
      → w.ticks ≡ n % 2 ^ 64
      → Continues (finish cl w now).1 rest end
      → Accounts n ((finish cl w now).0 ++ rest) end
  unfolding finish
  finish-Accounts n w now rest end e (r, f) =
      rw (r, f)
        (
          (refl, refl),
          (
            w.scheduler,
            now,
            refl,
            ap (λ k. report_of cl k (cl.flush_on_shutdown w.scheduler now).1) (omega (arith, e)),
          ),
        )

  receive-Accounts :
      (n : ℕ) (w : Worker S O) (r : Received) (now : ℕ) (rest : List Action) (end : Loop S O E)
      → w.ticks ≡ n % 2 ^ 64
      → Continues (receive cl w r now).1 rest end
      → Accounts n ((receive cl w r now).0 ++ rest) end
  unfolding receive apply_command
  receive-Accounts n w (command shutdown) now rest end e h = finish-Accounts n w now rest end e h
  receive-Accounts n w (command (set_paused next)) now rest end e h =
      acknowledged-Accounts n next rest end (h n e)
  receive-Accounts n w nothing now rest end e h = h n e
  receive-Accounts n w disconnected now rest end e h = finish-Accounts n w now rest end e h

  capture-ticks :
      (n : ℕ) (w : Worker S O) (now : ℕ)
      → w.ticks ≡ n % 2 ^ 64
      → (capture cl w now).ticks ≡ (n + 1) % 2 ^ 64
  unfolding capture
  capture-ticks n w now e = omega (arith, e)

  awake-Accounts :
      (n : ℕ) (d : SamplingDecision) (w : Worker S O) (t : Turn) (rest : List Action)
      (end : Loop S O E)
      → w.ticks ≡ n % 2 ^ 64
      → Continues (awake cl d w t).1 rest end
      → Accounts n ((awake cl d w t).0 ++ rest) end
  unfolding awake
  awake-Accounts n capture_now w t rest end e h =
      ticked-Accounts n t.now ((receive cl (capture cl w t.now) t.received t.finish_now).0 ++ rest)
        end
        (receive-Accounts (n + 1) (capture cl w t.now) t.received t.finish_now rest end
          (capture-ticks n w t.now e) h)
  awake-Accounts n (wait left) w t rest end e h =
      receive-Accounts n w t.received t.finish_now rest end e h
  awake-Accounts n deep_idle w t rest end e h =
      receive-Accounts n w t.received t.finish_now rest end e h

  iterate-Accounts :
      (n : ℕ) (w : Worker S O) (t : Turn) (rest : List Action) (end : Loop S O E)
      → w.ticks ≡ n % 2 ^ 64
      → Continues (iterate cl p w t).1 rest end
      → Accounts n ((iterate cl p w t).0 ++ rest) end
  unfolding iterate
  iterate-Accounts n w t rest end e =
      if-cases
        (λ ((actions, l) : List Action × Loop S O E).
          Continues l rest end → Accounts n (actions ++ rest) end)
        w.paused (λ b. receive-Accounts n _ t.received t.finish_now rest end e)
        (λ b. awake-Accounts n _ _ t rest end e)

  Continues-end :
      (l : Loop S O E) (ts : List Turn)
      → ((w : Worker S O) (m : ℕ)
          → w.ticks ≡ m % 2 ^ 64
          → Accounts m (run_turns cl p ts (going w)).0 (run_turns cl p ts (going w)).1)
      → Continues l (run_turns cl p ts l).0 (run_turns cl p ts l).1
  unfolding run_turns
  Continues-end (going w) ts ih = ih w
  Continues-end (returned s answer) [] ih = (refl, refl)
  Continues-end (returned s answer) (t ∷ ts) ih = (refl, refl)

  run_turns-Accounts :
      (turns : List Turn) (w : Worker S O) (n : ℕ)
      → w.ticks ≡ n % 2 ^ 64
      → Accounts n (run_turns cl p turns (going w)).0 (run_turns cl p turns (going w)).1
  unfolding run_turns
  run_turns-Accounts [] w n e = (refl, omega (arith, e))
  run_turns-Accounts (t ∷ ts) w n e =
      iterate-Accounts n w t _ _ e
        (Continues-end (iterate cl p w t).1 ts (λ v m k. run_turns-Accounts ts v m k))

  -- A loop that has returned has drained the scheduler as its last action and only then, and
  -- reports the flush's answer with the number of captures, modulo 2^64; one that goes on has
  -- drained nothing and counts its captures.
  pub run_capture_loop-Accounts :
      (s : S) (turns : List Turn)
      → Accounts 0 (run_capture_loop cl p s turns).0 (run_capture_loop cl p s turns).1
  unfolding run_capture_loop fresh_worker
  run_capture_loop-Accounts s turns = run_turns-Accounts turns (fresh_worker cl s) 0 (omega arith)
