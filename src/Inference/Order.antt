-- ===== src/Inference/Order.antt =====
-- crates/fndr-inference/src/model_worker.rs: which job is taken next.
use fndr.Prelude.{
  ◌+◌, Has, ◌≤◌, ◌<◌, ◌≡◌, ◌⊎◌, inl, inr, refl, true, false, List, [], ◌∷◌, Option, none, some,
  arith, All, All-weaken, length, Bool-cases, if◌then◌else◌,
}
use fndr.Inference.ModelWorker.{Job, rank, job_less, pop}

-- `j` comes before `k`: a higher priority, or the same and submitted no later.
abbrev pub Precedes : Job → Job → Type 0
Precedes j k =
    (rank k.priority < rank j.priority) ⊎ ((rank k.priority ≡ rank j.priority) × (j.seq ≤ k.seq))

-- A job is taken that precedes the rest, and with it the rest is the queue: each job of the queue
-- is the one taken or in the rest, which is one shorter.
abbrev pub Taken : List Job → Option (Job × List Job) → Type 0
Taken q none = q ≡ []
Taken q (some (j, rest)) =
    All (Precedes j) rest × All (λ k. (j ≡ k) ⊎ Has k rest) q × (length q ≡ length rest + 1)

less_Precedes : (a b : Job) → job_less a b ≡ true → Precedes b a
unfolding job_less
less_Precedes a b h = ground arith

not_less_Precedes : (a b : Job) → job_less a b ≡ false → Precedes a b
unfolding job_less
not_less_Precedes a b h = ground arith

Precedes-trans : (a b c : Job) → Precedes a b → Precedes b c → Precedes a c
Precedes-trans a b c h k = ground arith

step :
    (x : Job) (xs : List Job) (o : Option (Job × List Job))
    → Taken xs o
    → Taken (x ∷ xs) (elim o as (λ _. Option (Job × List Job)) [
      | none ↦ some (x, [])
      | some (m, rest) ↦ if job_less m x then some (x, m ∷ rest) else some (m, x ∷ rest)
    ])
step x xs none h = rw h (tt, (inl refl, tt), omega arith)
step x xs (some (m, rest)) (a, b, n) = elim (Bool-cases (job_less m x)) [
  | inl e ↦ rw e (
    (less_Precedes m x e, All-weaken (λ k p. Precedes-trans x m k (less_Precedes m x e) p) rest a),
    (inl refl, All-weaken (λ k p. inr p) xs b),
    omega (arith, n),
  )
  | inr e ↦ rw e (
    (not_less_Precedes m x e, a),
    (inr (inl refl), All-weaken (λ k p. behind k p) xs b),
    omega (arith, n),
  )
]
  where
    behind : (k : Job) → (m ≡ k) ⊎ Has k rest → (m ≡ k) ⊎ Has k (x ∷ rest)
    behind k (inl e) = inl e
    behind k (inr h) = inr (inr h)

-- The queue gives up a job of the highest priority, of those the one submitted first, and keeps the
-- others; it gives up none exactly if it is empty.
pub pop-Taken : (q : List Job) → Taken q (pop q)
unfolding pop
pop-Taken [] = refl
pop-Taken (x ∷ xs) = step x xs (pop xs) (pop-Taken xs)
