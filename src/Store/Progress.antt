-- ===== src/Store/Progress.antt =====
-- Each batch that is marked as flushed leaves fewer pending chunks.
use fndr.Prelude.{
  ℕ, All-take, All-map, All-order_by, ◌<◌, ◌≤◌, ◌≡◌, refl, Bool, true, ◌&&◌, List, [], ◌∷◌, map,
  arith, length, any, keep, All, Has, inl, inr, if-cases, Has-any,
}
use fndr.Text.{Text, text_eq}
use fndr.Text.Search.{text_eq_refl}
use fndr.Store.{
  Store, NewRecord, ChunkRow, PendingChunk, is_pending, capture_order, pending_chunks, stamp,
  mark_chunks_flushed,
}
use fndr.Store.Texts.{All-join_rows}

-- The chunks that are not flushed.
abbrev pub pending_count : Store → ℕ
pending_count s = length (keep is_pending s.chunks)

abbrev named : Text → ChunkRow → Bool
named id d = text_eq d.id id && is_pending d

stamp_le :
    (id : Text) (now : ℕ) (cs : List ChunkRow)
    → 0 < now
    → length (keep is_pending (map (stamp id now) cs)) ≤ length (keep is_pending cs)
stamp_le id now [] h = omega arith
stamp_le id now (c ∷ cs) h = ground (arith, stamp_le id now cs h)

stamp_lt :
    (id : Text) (now : ℕ) (cs : List ChunkRow)
    → 0 < now
    → any (named id) cs ≡ true
    → length (keep is_pending (map (stamp id now) cs)) < length (keep is_pending cs)
stamp_lt id now [] h k = absurd (cc)
stamp_lt id now (c ∷ cs) h k = ground (arith, stamp_le id now cs h, stamp_lt id now cs h)

mark_le :
    (s : Store) (ids : List Text) (now : ℕ)
    → 0 < now
    → pending_count (mark_chunks_flushed s ids now) ≤ pending_count s
unfolding mark_chunks_flushed
mark_le s [] now h = omega arith
mark_le s (id ∷ ids) now h = omega (
  arith,
  mark_le (record s { chunks = map (stamp id now) s.chunks }) ids now h,
  stamp_le id now s.chunks h,
)

mark_lt :
    (s : Store) (id : Text) (ids : List Text) (now : ℕ)
    → 0 < now
    → any (named id) s.chunks ≡ true
    → pending_count (mark_chunks_flushed s (id ∷ ids) now) < pending_count s
unfolding mark_chunks_flushed
mark_lt s id ids now h k = omega (
  arith,
  mark_le (record s { chunks = map (stamp id now) s.chunks }) ids now h,
  stamp_lt id now s.chunks h k,
)

All-weaken :
    (x : ChunkRow) (xs ys : List ChunkRow) → All (λ c. Has c xs) ys → All (λ c. Has c (x ∷ xs)) ys
All-weaken x xs [] h = tt
All-weaken x xs (y ∷ ys) h = (inr h.0, All-weaken x xs ys h.1)

All-self : (xs : List ChunkRow) → All (λ c. Has c xs) xs
All-self [] = tt
All-self (x ∷ xs) = (inl refl, All-weaken x xs xs (All-self xs))

All-kept :
    {A : Type 0} (P : A → Type 0) (p : A → Bool) (xs : List A)
    → All P xs
    → All (λ x. P x × (p x ≡ true)) (keep p xs)
All-kept P p [] h = tt
All-kept P p (x ∷ xs) h =
    let rest = All-kept P p xs h.1 in
    if-cases (All (λ x. P x × (p x ≡ true))) (p x) (λ e. ((h.0, e), rest)) (λ e. rest)

-- What is handed out as pending names a pending chunk of the store.
pub pending_chunks-named :
    (s : Store) (limit : ℕ)
    → All (λ (p : PendingChunk). any (named p.chunk_id) s.chunks ≡ true) (pending_chunks s limit)
unfolding pending_chunks
pending_chunks-named s limit =
    let In : ChunkRow × NewRecord → Type 0 = λ x. Has x.0 s.chunks × (is_pending x.0 ≡ true) in
    All-map In (λ p. any (named p.chunk_id) s.chunks ≡ true) _ _
      (λ (c, r) (m, e). Has-any (named c.id) c s.chunks m (ground (arith, text_eq_refl c.id)))
      (All-take In limit _ (
        All-order_by In capture_order _ (
          All-kept (λ x. Has x.0 s.chunks) (λ (c, r). is_pending c) _
            (All-join_rows (λ c. Has c s.chunks) s.records s.chunks (All-self s.chunks)))))

pub progress :
    (s : Store) (pending : List PendingChunk) (now : ℕ)
    → 0 < now
    → 0 < length pending
    → All (λ (p : PendingChunk). any (named p.chunk_id) s.chunks ≡ true) pending
    → pending_count (mark_chunks_flushed s (map (λ (p : PendingChunk). p.chunk_id) pending) now)
      < pending_count s
progress s [] now h k a = absurd (omega arith)
progress s (p ∷ ps) now h k a = mark_lt s p.chunk_id _ now h a.0
