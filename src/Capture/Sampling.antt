-- ===== src/Capture/Sampling.antt =====
-- crates/fndr-capture/src/sampling.rs: how long to wait for the next capture.
use fndr.Prelude.{
  ℕ, ◌+◌, ◌-◌, ◌*◌, ◌<◌, ◌≤◌, ◌≡◌, ◌↔◌, leb, ◌==◌, if◌then◌else◌, Option, none, some, arith, min,
}

-- A `Duration`, in nanoseconds.
abbrev pub Duration : Type 0
Duration = ℕ

abbrev pub from_secs : ℕ → Duration
from_secs s = s * 1_000_000_000

abbrev pub checked_sub : Duration → Duration → Option Duration
checked_sub a b = if leb b a then some (a - b) else none

pub record SamplingPolicy : Type 0 where
  pub active_interval : Duration
  pub idle_interval : Duration
  pub idle_after : Duration
  pub deep_idle_after : Duration
  pub forced_capture_after : Duration

unfoldable pub default : SamplingPolicy
default = record {
  active_interval = from_secs 2;
  idle_interval = from_secs 15;
  idle_after = from_secs 60;
  deep_idle_after = from_secs (5 * 60);
  forced_capture_after = from_secs (2 * 60);
}

pub data SamplingDecision : Type 0 where
  capture_now : SamplingDecision
  wait : Duration → SamplingDecision
  deep_idle : SamplingDecision

-- The cadence for the observed idleness.
abbrev pub interval : SamplingPolicy → Duration → Duration
interval p input_idle = if leb p.idle_after input_idle then p.idle_interval else p.active_interval

unfoldable pub decide : SamplingPolicy → Duration → Duration → SamplingDecision
decide p input_idle since_capture =
    if leb p.deep_idle_after input_idle
    then deep_idle
    else if leb p.forced_capture_after since_capture
    then capture_now
    else elim (checked_sub (interval p input_idle) since_capture) [
      | none ↦ capture_now
      | some left ↦ if left == 0 then capture_now else wait left
    ]

-- Below deep idleness, a capture is due exactly when the cadence or the forced interval has passed,
-- whichever is shorter.
pub capture_now_iff :
    (p : SamplingPolicy) (idle since : Duration)
    → idle < p.deep_idle_after
    → (decide p idle since ≡ capture_now) ↔ (min (interval p idle) p.forced_capture_after ≤ since)
unfolding decide
capture_now_iff p idle since h = ground arith

-- A wait is positive and ends with the cadence, and the decision that is taken then, with the same
-- idleness, is to capture.
pub wait_due :
    (p : SamplingPolicy) (idle since left : Duration)
    → decide p idle since ≡ wait left
    → (0 < left) × (since + left ≡ interval p idle) × (decide p idle (since + left) ≡ capture_now)
unfolding decide
wait_due p idle since left e = (ground arith, ground arith, ground arith)

-- Captures pause exactly while the input is deeply idle, however long ago the last one was.
pub deep_idle_iff :
    (p : SamplingPolicy) (idle since : Duration)
    → (decide p idle since ≡ deep_idle) ↔ (p.deep_idle_after ≤ idle)
unfolding decide
deep_idle_iff p idle since = ground arith
