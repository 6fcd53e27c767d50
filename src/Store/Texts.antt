-- ===== src/Store/Texts.antt =====
-- What the texts of the store's chunks satisfy, its queries and its merges keep.
use fndr.Prelude.{
  All-keep, All-take, All-append, All-map, All-order_by, ℕ, Bool, List, [], ◌∷◌, ◌++◌, Option, none,
  some, Result, ok, err, All, map_option, if-holds,
}
use fndr.Text.{Text}
use fndr.Store.{
  Store, StoreError, constraint, NewRecord, NewChunk, ChunkRow, PendingContinuityCandidate,
  find_record, clashes, has_record, insert_chunks, insert_capture, join_rows, newest_first,
  candidate, pending_continuity_candidates, rewrite, merge_pending_capture,
}

-- A property of what an option or a result holds.
abbrev pub OnSome : {A : Type 0} → (A → Type 0) → Option A → Type 0
OnSome P none = Unit
OnSome P (some a) = P a

abbrev pub OnOk : (Store → Type 0) → Result Store StoreError → Type 0
OnOk P (ok s) = P s
OnOk P (err e) = Unit

All-cons_option :
    {B : Type 0} (P : B → Type 0) (o : Option B) (rest : List B)
    → OnSome P o
    → All P rest
    → All P (elim o as (λ _. List B) [ none ↦ rest | some y ↦ y ∷ rest ])
All-cons_option P none rest h k = k
All-cons_option P (some y) rest h k = (h, k)

pub All-join_rows :
    (P : ChunkRow → Type 0) (records : List NewRecord) (chunks : List ChunkRow)
    → All P chunks
    → All (λ (c, r). P c) (join_rows records chunks)
unfolding join_rows
All-join_rows P records [] h = tt
All-join_rows P records (c ∷ cs) h =
    All-cons_option (λ (c, r). P c) _ _ (joined c (find_record c.record_id records) h.0)
      (All-join_rows P records cs h.1)
  where
    joined :
        (c : ChunkRow) (o : Option NewRecord)
        → P c
        → OnSome (λ ((d, r) : ChunkRow × NewRecord). P d) (map_option (λ r. (c, r)) o)
    joined c none q = tt
    joined c (some r) q = q

module _ (Q : Text → Type 0) where
  -- Every chunk has such a text.
  abbrev pub AllTexts : Store → Type 0
  AllTexts s = All (λ (c : ChunkRow). Q c.text) s.chunks

  pub All-candidates :
      (s : Store) (after limit : ℕ)
      → AllTexts s
      → All
          (λ (c : PendingContinuityCandidate). Q c.text)
          (pending_continuity_candidates s after limit)
  unfolding pending_continuity_candidates
  All-candidates s after limit h =
      All-map (λ (c, r). Q c.text) (λ c. Q c.text) candidate _ (λ (c, r) q. q)
        (All-take _ _ _ (
          All-order_by _ newest_first _
            (All-keep _ _ _ (All-join_rows (λ c. Q c.text) s.records s.chunks h))))

  pub AllTexts-merge :
      (s : Store) (c : PendingContinuityCandidate) (r : NewRecord) (text : Text)
      → AllTexts s
      → Q text
      → AllTexts (merge_pending_capture s c r text).0
  unfolding merge_pending_capture
  AllTexts-merge s c r text h q =
      if-holds (λ (t : Store × Bool). AllTexts t.0) _
        (All-map _ _ (rewrite c.chunk_id text) s.chunks
          (λ d k. if-holds (λ (x : ChunkRow). Q x.text) _ q k) h)
        h

  All-insert_chunks :
      (record_id : Text) (new : List NewChunk) (rows : List ChunkRow)
      → All (λ (c : NewChunk). Q c.text) new
      → All (λ (c : ChunkRow). Q c.text) rows
      → OnSome (All (λ (c : ChunkRow). Q c.text)) (insert_chunks record_id new rows)
  unfolding insert_chunks
  All-insert_chunks id [] rows k h = h
  All-insert_chunks id (c ∷ cs) rows k h =
      if-holds (OnSome (All (λ (c : ChunkRow). Q c.text))) (clashes id c rows) tt
        (All-insert_chunks id cs _ k.1 (All-append _ rows _ h (k.0, tt)))

  pub AllTexts-insert :
      (s : Store) (r : NewRecord) (new : List NewChunk)
      → All (λ (c : NewChunk). Q c.text) new
      → AllTexts s
      → OnOk AllTexts (insert_capture s r new)
  unfolding insert_capture
  AllTexts-insert s r new k h =
      if-holds (OnOk AllTexts) (has_record r.id s.records) tt
        (committed _ (All-insert_chunks r.id new s.chunks k h))
    where
      committed :
          (o : Option (List ChunkRow))
          → OnSome (All (λ (c : ChunkRow). Q c.text)) o
          → OnOk AllTexts (elim o as (λ _. Result Store StoreError) [
            | none ↦ err constraint
            | some rows ↦ ok (record { records = s.records ++ r ∷ []; chunks = rows })
          ])
      committed none q = tt
      committed (some rows) q = q
