-- ===== src/Shell/Worker.antt =====
-- crates/fndr-shell/src/capture_worker.rs: the thread that owns capture. What happens around it, the
-- clock, the input's idleness and the command channel, is a list of turns, one for each iteration of
-- the loop.
pub mod Cadence
pub mod Ending
use fndr.Prelude.{
  ℕ, ◌+◌, ◌-◌, ◌*◌, ◌%◌, ◌^◌, Bool, true, false, List, [], ◌∷◌, ◌++◌, Option, none, some, Result,
  ok, err, if◌then◌else◌, ltb, length, drop,
}
use fndr.Capture.Sampling.{
  Duration, from_secs, SamplingPolicy, SamplingDecision, capture_now, wait, deep_idle, decide,
}

-- `MIN_CAPTURE_INTERVAL` and `STATUS_EVENT_CAPACITY`.
abbrev pub min_capture_interval : Duration
min_capture_interval = from_secs 2

abbrev pub status_event_capacity : ℕ
status_event_capacity = 64

-- `Duration::from_millis`.
abbrev pub from_millis : ℕ → Duration
from_millis ms = ms * 1_000_000

pub record CaptureWorkerEvent (O : Type 0) : Type 0 where
  pub observed_at_ms : ℕ
  pub outcome : O

pub record CaptureWorkerReport : Type 0 where
  pub ticks : ℕ
  pub shutdown_flushed_chunks : ℕ

pub data WorkerCommand : Type 0 where
  shutdown : WorkerCommand
  set_paused : Bool → WorkerCommand

-- The trait `CaptureLoop`.
pub record CaptureLoop (S O E : Type 0) : Type 0 where
  pub tick : S → ℕ → S × O
  pub flush_on_shutdown : S → ℕ → S × Result ℕ E

-- What the command channel answers within one iteration.
pub data Received : Type 0 where
  command : WorkerCommand → Received
  nothing : Received
  disconnected : Received

-- What one iteration reads: `now_ms()`, the idleness, the channel's answer, the clock of a final
-- flush, and how many status events the receiver has taken since the last turn.
pub record Turn : Type 0 where
  pub now : ℕ
  pub idle : Duration
  pub received : Received
  pub finish_now : ℕ
  pub taken : ℕ

-- The variables of the loop, and the status events that wait in the channel.
pub record Worker (S O : Type 0) : Type 0 where
  pub scheduler : S
  pub ticks : ℕ
  pub paused : Bool
  pub last_capture_ms : ℕ
  pub events : List (CaptureWorkerEvent O)

-- What the loop does to the outside, in order: a tick, the acknowledgement of a command, the drain.
pub data Action : Type 0 where
  ticked : ℕ → Action
  acknowledged : Bool → Action
  drained : ℕ → Action

pub data CaptureWorkerStartError (X : Type 0) : Type 0 where
  invalid_capture_interval : CaptureWorkerStartError X
  thread_spawn : CaptureWorkerStartError X
  scheduler_error : X → CaptureWorkerStartError X
  startup_channel_closed : CaptureWorkerStartError X

-- The loop goes on, or has returned.
pub data Loop (S O E : Type 0) : Type 0 where
  going : Worker S O → Loop S O E
  returned : S → Result CaptureWorkerReport E → Loop S O E

-- `try_send` on the bounded channel: an event that finds it full is dropped.
unfoldable pub try_send : {O : Type 0} → List O → O → List O
try_send events event =
    if ltb (length events) status_event_capacity then events ++ (event ∷ []) else events

abbrev pub discard : {O : Type 0} → ℕ → List O → List O
discard n events = drop n events

module _ {S O E : Type 0} (cl : CaptureLoop S O E) where
  -- What `finish` makes of the flush's answer, by `?`.
  abbrev pub report_of : ℕ → Result ℕ E → Result CaptureWorkerReport E
  report_of ticks (ok n) = ok (record { ticks = ticks; shutdown_flushed_chunks = n })
  report_of ticks (err e) = err e

  unfoldable pub finish : Worker S O → ℕ → List Action × Loop S O E
  finish w now_ms =
      let (s, answer) = cl.flush_on_shutdown w.scheduler now_ms in
      (drained now_ms ∷ [], returned s (report_of w.ticks answer))

  -- `apply_command`, and the return that it asks for.
  unfoldable pub apply_command : Worker S O → WorkerCommand → ℕ → List Action × Loop S O E
  apply_command w shutdown finish_now = finish w finish_now
  apply_command w (set_paused next) finish_now =
      (acknowledged next ∷ [], going (record w { paused = next }))

  -- `recv`, `try_recv` and `recv_timeout` lead to the same three cases; `recv` only returns with a
  -- command or disconnected, and goes on waiting otherwise.
  unfoldable pub receive : Worker S O → Received → ℕ → List Action × Loop S O E
  receive w (command c) finish_now = apply_command w c finish_now
  receive w nothing finish_now = ([], going w)
  receive w disconnected finish_now = finish w finish_now

  -- The tick of `CaptureNow`, with its event.
  unfoldable pub capture : Worker S O → ℕ → Worker S O
  unfolding try_send
  capture w now =
      let (s, outcome) = cl.tick w.scheduler now in
      record w {
        scheduler = s;
        ticks = (w.ticks + 1) % 2 ^ 64;
        last_capture_ms = now;
        events = try_send w.events (record { observed_at_ms = now; outcome = outcome });
      }

  abbrev pub after : Action → List Action × Loop S O E → List Action × Loop S O E
  after action (actions, l) = (action ∷ actions, l)

  -- One iteration that is not paused, by the decision.
  unfoldable pub awake : SamplingDecision → Worker S O → Turn → List Action × Loop S O E
  awake capture_now w t = after (ticked t.now) (receive (capture w t.now) t.received t.finish_now)
  awake (wait left) w t = receive w t.received t.finish_now
  awake deep_idle w t = receive w t.received t.finish_now

  unfoldable pub iterate : SamplingPolicy → Worker S O → Turn → List Action × Loop S O E
  iterate sampling before t =
      let w : Worker S O = record before { events = discard t.taken before.events } in
      if w.paused
      then receive w t.received t.finish_now
      else awake (decide sampling t.idle (from_millis (t.now - w.last_capture_ms))) w t

  -- `run_capture_loop` over the turns that happen; `going` when they end before the loop does.
  unfoldable pub run_turns : SamplingPolicy → List Turn → Loop S O E → List Action × Loop S O E
  run_turns sampling turns (returned s answer) = ([], returned s answer)
  run_turns sampling [] (going w) = ([], going w)
  run_turns sampling (t ∷ ts) (going w) =
      let (actions, l) = iterate sampling w t in
      let (more, end) = run_turns sampling ts l in (actions ++ more, end)

  unfoldable pub fresh_worker : S → Worker S O
  fresh_worker s = record {
    scheduler = s;
    ticks = 0;
    paused = false;
    last_capture_ms = 0;
    events = [];
  }

  unfoldable pub run_capture_loop : SamplingPolicy → S → List Turn → List Action × Loop S O E
  unfolding fresh_worker
  run_capture_loop sampling s turns = run_turns sampling turns (going (fresh_worker s))

-- What `start_worker` makes of the spawn and, if the thread reports at all, of what `open` answers.
abbrev pub started :
    {S X : Type 0}
    → Result (Unit {0}) (Unit {0})
    → Option (Result S X)
    → Result S (CaptureWorkerStartError X)
started (err u) opened = err thread_spawn
started (ok u) none = err startup_channel_closed
started (ok u) (some (err e)) = err (scheduler_error e)
started (ok u) (some (ok s)) = ok s

unfoldable pub start_worker :
    {S X : Type 0}
    → SamplingPolicy
    → Result (Unit {0}) (Unit {0})
    → Option (Result S X)
    → Result S (CaptureWorkerStartError X)
start_worker sampling spawned opened =
    if ltb sampling.active_interval min_capture_interval
    then err invalid_capture_interval
    else started spawned opened
