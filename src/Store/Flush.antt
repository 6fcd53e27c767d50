-- ===== src/Store/Flush.antt =====
-- crates/fndr-store/src/lance_writer.rs: one flush of pending chunks to the index. The embedder and
-- Lance are functions over a state `W`. An embedder that answers with another number of vectors than
-- texts stops the program, which is not modelled.
use fndr.Prelude.{
  ℕ, ◌≡◌, refl, sym, ap, ◌∙◌, any, if-cases, if-holds, Bool, false, List, [], ◌∷◌, map, Option,
  none, some, Result, ok, err, if◌then◌else◌, ◌==◌, length,
}
use fndr.Text.{Text, text_eq}
use fndr.Store.{Store, ChunkRow, PendingChunk, stamp, pending_chunks, mark_chunks_flushed}

pub data FlushError (E : Type 0) : Type 0 where
  embed : E → FlushError E
  wrong_dimension : Text → ℕ → ℕ → FlushError E
  lance : E → FlushError E

pub record FlushReport : Type 0 where
  pub written : ℕ
  pub batch_was_full : Bool

abbrev pub flush_batch_size : ℕ
flush_batch_size = 256

-- `Embedder` and the Lance table: opening or creating it, and adding one batch. `V` is a vector.
pub record Derived (W V E : Type 0) : Type 0 where
  pub dim : ℕ
  pub vector_len : V → ℕ
  pub embed_documents : List Text → W → Result (List V) E × W
  pub open_or_create_table : W → Result (Unit {0}) E × W
  pub add : List PendingChunk → List V → W → Result (Unit {0}) E × W

-- A chunk of the batch bears the time, and another one is as it was.
abbrev stamped : List PendingChunk → ℕ → ChunkRow → ChunkRow
stamped pending now_ms c =
    if any (λ (p : PendingChunk). text_eq c.id p.chunk_id) pending
    then record c { flushed_at_ms = now_ms }
    else c

stamped-stamp :
    (p : PendingChunk) (ps : List PendingChunk) (now_ms : ℕ) (c : ChunkRow)
    → stamped ps now_ms (stamp p.chunk_id now_ms c) ≡ stamped (p ∷ ps) now_ms c
stamped-stamp p ps now_ms c =
    let marked = record c { flushed_at_ms = now_ms } in
    if-cases (λ d. stamped ps now_ms d ≡ stamped (p ∷ ps) now_ms c) (text_eq c.id p.chunk_id)
      (λ e. rw e (if-holds (λ d. d ≡ marked) (any (λ x. text_eq c.id x.chunk_id) ps) refl refl))
      (λ e. rw e refl)

stamp_then :
    (p : PendingChunk) (ps : List PendingChunk) (now_ms : ℕ) (cs : List ChunkRow)
    → map (stamped ps now_ms) (map (stamp p.chunk_id now_ms) cs) ≡ map (stamped (p ∷ ps) now_ms) cs
stamp_then p ps now_ms [] = refl
stamp_then p ps now_ms (c ∷ cs) =
    rw (stamped-stamp p ps now_ms c)
      (ap (λ ds. stamped (p ∷ ps) now_ms c ∷ ds) (stamp_then p ps now_ms cs))

map-none : (now_ms : ℕ) (cs : List ChunkRow) → map (stamped [] now_ms) cs ≡ cs
map-none now_ms [] = refl
map-none now_ms (c ∷ cs) = ap (λ ds. c ∷ ds) (map-none now_ms cs)

mark_all :
    (s : Store) (pending : List PendingChunk) (now_ms : ℕ)
    → let after = mark_chunks_flushed s (map (λ (c : PendingChunk). c.chunk_id) pending) now_ms in
      (after.records ≡ s.records) × (after.chunks ≡ map (stamped pending now_ms) s.chunks)
unfolding mark_chunks_flushed
mark_all s [] now_ms = (refl, sym (map-none now_ms s.chunks))
mark_all s (p ∷ ps) now_ms =
    let (r, c) =
      mark_all (record s { chunks = map (stamp p.chunk_id now_ms) s.chunks }) ps now_ms in
    (r, c ∙ stamp_then p ps now_ms s.chunks)

module _ {W V E : Type 0} (on : Derived W V E) where
  -- The loop over `pending.iter().zip(&vectors)`.
  unfoldable pub check_dimensions : List PendingChunk → List V → Option (FlushError E)
  check_dimensions [] vs = none
  check_dimensions (c ∷ cs) [] = none
  check_dimensions (c ∷ cs) (v ∷ vs) =
      let rest = check_dimensions cs vs in
      if on.vector_len v == on.dim
      then rest
      else some (wrong_dimension c.chunk_id (on.vector_len v) on.dim)

  abbrev pub Flushed : Type 0
  Flushed = Store × W × Result FlushReport (FlushError E)

  abbrev pub after_add : Store → ℕ → List PendingChunk → Result (Unit {0}) E × W → Flushed
  after_add s now_ms pending (err e, w) = (s, w, err (lance e))
  after_add s now_ms pending (ok u, w) = (
    mark_chunks_flushed s (map (λ (c : PendingChunk). c.chunk_id) pending) now_ms,
    w,
    ok (record { written = length pending; batch_was_full = length pending == flush_batch_size }),
  )

  abbrev pub after_open : Store → ℕ → List PendingChunk → List V → Result (Unit {0}) E × W → Flushed
  after_open s now_ms pending vectors (err e, w) = (s, w, err (lance e))
  after_open s now_ms pending vectors (ok u, w) =
      after_add s now_ms pending (on.add pending vectors w)

  abbrev pub after_check :
      Store → ℕ → List PendingChunk → List V → W → Option (FlushError E) → Flushed
  after_check s now_ms pending vectors w (some e) = (s, w, err e)
  after_check s now_ms pending vectors w none =
      after_open s now_ms pending vectors (on.open_or_create_table w)

  abbrev pub after_embed : Store → ℕ → List PendingChunk → Result (List V) E × W → Flushed
  after_embed s now_ms pending (err e, w) = (s, w, err (embed e))
  after_embed s now_ms pending (ok vectors, w) =
      after_check s now_ms pending vectors w (check_dimensions pending vectors)

  abbrev pub flush_batch : Store → ℕ → List PendingChunk → W → Flushed
  flush_batch s now_ms [] w = (s, w, ok (record { written = 0; batch_was_full = false }))
  flush_batch s now_ms (c ∷ cs) w =
      after_embed s now_ms (c ∷ cs)
        (on.embed_documents (map (λ (c : PendingChunk). c.text) (c ∷ cs)) w)

  unfoldable pub flush_once : Store → W → ℕ → Flushed
  flush_once s w now_ms = flush_batch s now_ms (pending_chunks s flush_batch_size) w

  -- What a flush did, in the operations of the store.
  abbrev pub Marked : Store → ℕ → List PendingChunk → Flushed → Type 0
  Marked s now_ms pending (after, w, err e) = after ≡ s
  Marked s now_ms pending (after, w, ok report) =
      (report.written ≡ length pending)
      × (after ≡ mark_chunks_flushed s (map (λ (c : PendingChunk). c.chunk_id) pending) now_ms)

  after_add-Marked :
      (s : Store) (now_ms : ℕ) (pending : List PendingChunk) (r : Result (Unit {0}) E × W)
      → Marked s now_ms pending (after_add s now_ms pending r)
  after_add-Marked s now p (err e, w) = refl
  after_add-Marked s now p (ok u, w) = (refl, refl)

  after_open-Marked :
      (s : Store) (now_ms : ℕ) (pending : List PendingChunk) (vs : List V)
      (r : Result (Unit {0}) E × W)
      → Marked s now_ms pending (after_open s now_ms pending vs r)
  after_open-Marked s now p vs (err e, w) = refl
  after_open-Marked s now p vs (ok u, w) = after_add-Marked s now p (on.add p vs w)

  after_check-Marked :
      (s : Store) (now_ms : ℕ) (pending : List PendingChunk) (vs : List V) (w : W)
      (o : Option (FlushError E))
      → Marked s now_ms pending (after_check s now_ms pending vs w o)
  after_check-Marked s now p vs w (some e) = refl
  after_check-Marked s now p vs w none = after_open-Marked s now p vs (on.open_or_create_table w)

  after_embed-Marked :
      (s : Store) (now_ms : ℕ) (pending : List PendingChunk) (r : Result (List V) E × W)
      → Marked s now_ms pending (after_embed s now_ms pending r)
  after_embed-Marked s now p (err e, w) = refl
  after_embed-Marked s now p (ok vs, w) = after_check-Marked s now p vs w (check_dimensions p vs)

  flush_batch-Marked :
      (s : Store) (now_ms : ℕ) (pending : List PendingChunk) (w : W)
      → Marked s now_ms pending (flush_batch s now_ms pending w)
  unfolding mark_chunks_flushed
  flush_batch-Marked s now [] w = (refl, refl)
  flush_batch-Marked s now (c ∷ cs) w = after_embed-Marked s now (c ∷ cs) _

  pub flush_once-Marked :
      (s : Store) (w : W) (now_ms : ℕ)
      → Marked s now_ms (pending_chunks s flush_batch_size) (flush_once s w now_ms)
  unfolding flush_once
  flush_once-Marked s w now = flush_batch-Marked s now (pending_chunks s flush_batch_size) w

  -- What a flush did, chunk by chunk: if it answers a report, the records are as they were, and of
  -- the chunks, all in their places, exactly those of the batch bear the time of the flush.
  abbrev pub Settled : Store → ℕ → List PendingChunk → Flushed → Type 0
  Settled s now_ms pending (after, w, err e) = after ≡ s
  Settled s now_ms pending (after, w, ok report) =
      (report.written ≡ length pending)
      × (after.records ≡ s.records)
      × (after.chunks
          ≡ map
              (λ (c : ChunkRow).
                if any (λ (p : PendingChunk). text_eq c.id p.chunk_id) pending
                then record c { flushed_at_ms = now_ms }
                else c)
              s.chunks)

  Marked-Settled :
      (s : Store) (now_ms : ℕ) (pending : List PendingChunk) (f : Flushed)
      → Marked s now_ms pending f
      → Settled s now_ms pending f
  Marked-Settled s now pending (after, w, err e) h = h
  Marked-Settled s now pending (after, w, ok report) (n, e) =
      let (r, c) = mark_all s pending now in
      (n, ap (λ (t : Store). t.records) e ∙ r, ap (λ (t : Store). t.chunks) e ∙ c)

  -- Whatever the embedder and Lance answer, a flush that fails leaves the store as it was; a flush
  -- that succeeds reports the size of its batch, leaves the records, and of the chunks stamps those
  -- of the batch with its time and leaves the others.
  pub flush_once-Settled :
      (s : Store) (w : W) (now_ms : ℕ)
      → Settled s now_ms (pending_chunks s flush_batch_size) (flush_once s w now_ms)
  flush_once-Settled s w now =
      Marked-Settled s now (pending_chunks s flush_batch_size) (flush_once s w now)
        (flush_once-Marked s w now)
