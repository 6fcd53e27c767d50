-- ===== src/Inference/Answers.antt =====
-- crates/fndr-inference/src/model_worker.rs: every queued job is answered.
use fndr.Prelude.{
  ℕ, zero, suc, ◌+◌, ◌≡◌, refl, ◌∙◌, ap, false, List, [], ◌∷◌, Option, none, some, arith, length,
  if-cases, if-holds, if◌then◌else◌, ◌==◌,
}
use fndr.Inference.ModelWorker.{Job, job_less, pop, Models, JobResult, WorkerState, run_job, turn}
use fndr.Inference.Order.{Taken, pop-Taken}

-- How many jobs of a queue have the number `k`.
abbrev pub jobs_of : ℕ → List Job → ℕ
jobs_of k [] = 0
jobs_of k (j ∷ js) = let rest = jobs_of k js in if j.seq == k then rest + 1 else rest

-- What is taken from a queue and the rest have its jobs, number by number.
abbrev Counted : List Job → Option (Job × List Job) → Type 0
Counted q none = q ≡ []
Counted q (some (j, rest)) = (k : ℕ) → jobs_of k q ≡ jobs_of k (j ∷ []) + jobs_of k rest

count_step :
    (x : Job) (xs : List Job) (o : Option (Job × List Job))
    → Counted xs o
    → Counted (x ∷ xs) (elim o as (λ _. Option (Job × List Job)) [
      | none ↦ some (x, [])
      | some (m, rest) ↦ if job_less m x then some (x, m ∷ rest) else some (m, x ∷ rest)
    ])
count_step x xs none h = λ k. rw h (omega arith)
count_step x xs (some (m, rest)) h =
    if-holds (Counted (x ∷ xs)) (job_less m x) (λ k. ground (arith, h k)) (λ k. ground (arith, h k))

pop-Counted : (q : List Job) → Counted q (pop q)
unfolding pop
pop-Counted [] = refl
pop-Counted (x ∷ xs) = count_step x xs (pop xs) (pop-Counted xs)

module _ {M W V E : Type 0} (ml : Models M W V E) where
  -- That many turns.
  unfoldable pub turns : ℕ → WorkerState ml → WorkerState ml
  turns zero s = s
  turns (suc n) s = turns n (turn ml s)

  -- How many of the answers are sent to the caller of job `k`.
  abbrev pub answers_to : ℕ → List (ℕ × JobResult ml) → ℕ
  answers_to k [] = 0
  answers_to k ((n, r) ∷ sent) = let rest = answers_to k sent in if n == k then rest + 1 else rest

  -- A job is answered once, and to its own caller; nothing is queued by it.
  run_job_lem :
      (s : WorkerState ml) (job : Job)
      → ((run_job ml s job).queue ≡ s.queue)
        × ((run_job ml s job).shutdown ≡ s.shutdown)
        × (length (run_job ml s job).sent ≡ length s.sent + 1)
        × ((k : ℕ)
            → answers_to k (run_job ml s job).sent ≡ answers_to k s.sent + jobs_of k (job ∷ []))
  unfolding run_job
  run_job_lem s job = ground arith

  -- What a turn does, by what the queue gives up.
  abbrev Turned : WorkerState ml → Option (Job × List Job) → WorkerState ml → Type 0
  Turned s none after = after ≡ s
  Turned s (some (job, rest)) after =
      (after.queue ≡ rest)
      × (after.shutdown ≡ s.shutdown)
      × (length after.sent ≡ length s.sent + 1)
      × ((k : ℕ) → answers_to k after.sent ≡ answers_to k s.sent + jobs_of k (job ∷ []))

  turned :
      (s : WorkerState ml) (o : Option (Job × List Job))
      → Turned s o (elim o as (λ _. WorkerState ml) [
        | none ↦ s
        | some (job, rest) ↦ run_job ml (record s { queue = rest }) job
      ])
  turned s none = refl
  turned s (some (job, rest)) = run_job_lem (record s { queue = rest }) job

  turn-Turned : (s : WorkerState ml) → s.shutdown ≡ false → Turned s (pop s.queue) (turn ml s)
  unfolding turn
  turn-Turned s h =
      if-cases (Turned s (pop s.queue)) s.shutdown (λ e. absurd (cc (e, h)))
        (λ e. turned s (pop s.queue))

  -- An empty queue and no shutdown, `n` answers more than before, and for each number as many more
  -- to its caller as jobs of this number were queued.
  abbrev pub Answered : ℕ → WorkerState ml → WorkerState ml → Type 0
  Answered n before after =
      (after.queue ≡ [])
      × (after.shutdown ≡ false)
      × (length after.sent ≡ length before.sent + n)
      × ((k : ℕ) → answers_to k after.sent ≡ answers_to k before.sent + jobs_of k before.queue)

  empty_of_length : (q : List Job) → length q ≡ 0 → q ≡ []
  empty_of_length [] h = refl
  empty_of_length (j ∷ q) h = absurd (omega arith)

  answer_step :
      (n : ℕ) (s after : WorkerState ml) (o : Option (Job × List Job))
      → Taken s.queue o
      → Counted s.queue o
      → Turned s o after
      → s.shutdown ≡ false
      → length s.queue ≡ suc n
      → (length after.queue ≡ n)
        × (after.shutdown ≡ false)
        × (length after.sent ≡ length s.sent + 1)
        × ((k : ℕ)
            → answers_to k after.sent + jobs_of k after.queue
              ≡ answers_to k s.sent + jobs_of k s.queue)
  answer_step n s after none t c u h e = absurd (cc (ap length t, e))
  answer_step n s after (some (job, rest)) t c (q, d, l, a) h e =
      (ap length q ∙ omega (arith, t.2, e), d ∙ h, l, λ k. rw q (omega (arith, a k, c k)))

  Answered-after :
      (n : ℕ) (s : WorkerState ml)
      → s.shutdown ≡ false
      → length s.queue ≡ n
      → Answered n s (turns n s)
  unfolding turns
  Answered-after zero s h e =
      let empty = empty_of_length s.queue e in (empty, h, omega arith, λ k. rw empty (omega arith))
  Answered-after (suc n) s h e =
      let (a, b, c, d) =
        answer_step n s (turn ml s) (pop s.queue) (pop-Taken s.queue) (pop-Counted s.queue)
          (turn-Turned s h) h e in
      let (x, y, z, w) = Answered-after n (turn ml s) b a in
      (x, y, omega (arith, z, c), λ k. w k ∙ d k)

  -- Without a shutdown, whatever the loader and the embedder answer, as many turns as there are jobs
  -- in the queue leave it empty and send as many answers more; and for each number, as many answers
  -- are sent to its caller as jobs with this number were queued.
  pub all-Answered :
      (s : WorkerState ml)
      → s.shutdown ≡ false
      → Answered (length s.queue) s (turns (length s.queue) s)
  all-Answered s h = Answered-after (length s.queue) s h refl
