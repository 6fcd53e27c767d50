-- ===== src/Inference/ModelWorker.antt =====
-- crates/fndr-inference/src/model_worker.rs: the one thread that calls the model. The loader and the
-- embedder are parameters, which act on a world of their own; a channel to a caller is the number of
-- its job.
use fndr.Prelude.{
  ℕ, ◌+◌, ◌%◌, ◌^◌, Bool, true, false, ◌&&◌, ◌||◌, List, [], ◌∷◌, Option, none, some, Result, ok,
  err, if◌then◌else◌, ltb, ◌==◌,
}
use fndr.Text.{Text, codes}

pub data Priority : Type 0 where
  backfill review synthesis interactive : Priority

-- The derived order.
abbrev pub rank : Priority → ℕ
rank backfill = 0
rank review = 1
rank synthesis = 2
rank interactive = 3

pub data WorkKind : Type 0 where
  documents : List Text → WorkKind
  query : Text → WorkKind

pub record Job : Type 0 where
  pub priority : Priority
  pub seq : ℕ
  pub kind : WorkKind

-- `cmp` answers `Less`.
unfoldable pub job_less : Job → Job → Bool
job_less a b =
    ltb (rank a.priority) (rank b.priority)
    || (rank a.priority == rank b.priority && ltb b.seq a.seq)

-- The heap's `pop`: a greatest job, and the others.
unfoldable pub pop : List Job → Option (Job × List Job)
unfolding job_less
pop [] = none
pop (x ∷ xs) = elim (pop xs) [
  | none ↦ some (x, [])
  | some (m, rest) ↦ if job_less m x then some (x, m ∷ rest) else some (m, x ∷ rest)
]

-- `Embedder`, its loader, and the error of a text.
pub record Models (M W V E : Type 0) : Type 0 where
  pub loader : W → Result M E × W
  pub embed_documents : M → List Text → W → Result (List V) E × W
  pub embed_query : M → Text → W → Result V E × W
  pub failed : Text → E

module _ {M W V E : Type 0} (ml : Models M W V E) where
  abbrev pub JobResult : Type 0
  JobResult = Result (List V) E

  -- The queue, the loaded model, the next sequence number, whether shutdown is asked for, and the
  -- answers sent, the last first.
  pub record WorkerState : Type 0 where
    pub queue : List Job
    pub model : Option M
    pub world : W
    pub next_seq : ℕ
    pub shutdown : Bool
    pub sent : List (ℕ × JobResult)

  -- `spawn`.
  unfoldable pub spawn : W → WorkerState
  spawn w = record {
    queue = [];
    model = none;
    world = w;
    next_seq = 0;
    shutdown = false;
    sent = [];
  }

  -- `submit` up to its wait for the answer.
  unfoldable pub submit : WorkerState → Priority → WorkKind → WorkerState
  submit s priority kind = record s {
    queue = record { priority = priority; seq = s.next_seq; kind = kind } ∷ s.queue;
    next_seq = (s.next_seq + 1) % 2 ^ 64;
  }

  abbrev pub one_row : Result V E → JobResult
  one_row (ok v) = ok (v ∷ [])
  one_row (err e) = err e

  abbrev pub run_kind : M → WorkKind → W → JobResult × W
  run_kind model (documents texts) w = ml.embed_documents model texts w
  run_kind model (query text) w = let (r, v) = ml.embed_query model text w in (one_row r, v)

  abbrev pub respond : WorkerState → Job → JobResult → WorkerState
  respond s job result = record s { sent = (job.seq, result) ∷ s.sent }

  abbrev pub run_loaded : WorkerState → M → Job → WorkerState
  run_loaded s model job =
      let (result, w) = run_kind model job.kind s.world in
      respond (record s { model = some model; world = w }) job result

  -- The part of the loop behind `pop`: load the model if there is none, and answer the job.
  unfoldable pub run_job : WorkerState → Job → WorkerState
  run_job s job = elim s.model [
    | some model ↦ run_loaded s model job
    | none ↦
        let (loaded, w) = ml.loader s.world in
        elim loaded as (λ _. WorkerState) [
          | ok model ↦ run_loaded (record s { world = w }) model job
          | err e ↦ respond (record s { world = w }) job (err e)
        ]
  ]

  -- One turn of `run_worker`: nothing while shutdown is asked for or no job is there.
  unfoldable pub turn : WorkerState → WorkerState
  unfolding run_job
  turn s = if s.shutdown then s else elim (pop s.queue) as (λ _. WorkerState) [
    | none ↦ s
    | some (job, rest) ↦ run_job (record s { queue = rest }) job
  ]

  abbrev pub is_idle : WorkerState → Bool
  is_idle s = elim s.queue as (λ _. Bool) [ [] ↦ true | j ∷ js ↦ false ]

  -- A wait for work that times out.
  unfoldable pub time_out : WorkerState → WorkerState
  time_out s = if is_idle s then record s { model = none } else s

  -- The handle's `drop`.
  unfoldable pub request_shutdown : WorkerState → WorkerState
  request_shutdown s = record s { shutdown = true }

  -- The caller's side of `submit_embed_query`: the last of the rows.
  abbrev pub last_row : List V → Option V
  last_row [] = none
  last_row (v ∷ []) = some v
  last_row (v ∷ u ∷ vs) = last_row (u ∷ vs)

  unfoldable pub query_answer : JobResult → Result V E
  query_answer (err e) = err e
  query_answer (ok rows) = elim (last_row rows) [
    | some v ↦ ok v
    | none ↦ err (ml.failed (codes "worker returned no vector for one query"))
  ]
