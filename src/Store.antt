-- ===== src/Store.antt =====
-- crates/fndr-store/src/store.rs: the records and chunks that SQLite holds, as two tables in the
-- order of their row ids. A statement fails on a constraint of the schema; a failure of the disk is
-- not modelled. Times are the non-negative ones that the capture path writes. Rows that an
-- `ORDER BY` leaves tied keep the order of the table.
pub mod Progress
pub mod Flush
pub mod Texts
pub mod Deletion
pub mod Deleted
pub mod Cleared
pub mod Predicate
pub mod Reading
pub mod Ledgers
use fndr.Prelude.{
  order_by, ℕ, zero, suc, ◌+◌, ◌≤◌, min, Bool, true, false, not, ◌&&◌, ◌||◌, List, [], ◌∷◌, ◌++◌,
  map, Option, none, some, Result, ok, err, if◌then◌else◌, ltb, leb, ◌==◌, length, take, any, keep,
  map_option, filter_map,
}
use fndr.Text.{Text, text_eq}
use fndr.Privacy.Blocklist.{SanitizedUrl}

pub data StoreError : Type 0 where
  constraint : StoreError
  invalid_delete_scope : Text → StoreError

pub record NewRecord : Type 0 where
  pub id : Text
  pub session_id : Text
  pub source : Text
  pub app_name : Text
  pub bundle_id : Option Text
  pub url : Option SanitizedUrl
  pub window_title : Text
  pub captured_at_ms : ℕ
  pub created_at_ms : ℕ

pub record NewChunk : Type 0 where
  pub id : Text
  pub ord : ℕ
  pub text : Text

-- A row of `chunks`; one that is not flushed has the time 0.
pub record ChunkRow : Type 0 where
  pub id : Text
  pub record_id : Text
  pub ord : ℕ
  pub text : Text
  pub flushed_at_ms : ℕ

-- The rows of `memory_records` are the records as they were inserted or last merged.
pub record Store : Type 0 where
  pub records : List NewRecord
  pub chunks : List ChunkRow

pub record PendingChunk : Type 0 where
  pub chunk_id : Text
  pub record_id : Text
  pub ord : ℕ
  pub text : Text
  pub source : Text
  pub captured_at_ms : ℕ

pub record PendingContinuityCandidate : Type 0 where
  pub record_id : Text
  pub chunk_id : Text
  pub app_name : Text
  pub url : Option Text
  pub window_title : Text
  pub text : Text
  pub captured_at_ms : ℕ

unfoldable pub find_record : Text → List NewRecord → Option NewRecord
find_record id [] = none
find_record id (r ∷ rs) = if text_eq r.id id then some r else find_record id rs

-- The keys of `chunks`: the id, and the record with the position in it.
abbrev pub clashes : Text → NewChunk → List ChunkRow → Bool
clashes record_id new =
    any (λ c. text_eq c.id new.id || (text_eq c.record_id record_id && c.ord == new.ord))

abbrev pub has_record : Text → List NewRecord → Bool
has_record id = any (λ r. text_eq r.id id)

-- `INSERT INTO chunks …`, one after another; a repeated key fails.
unfoldable pub insert_chunks : Text → List NewChunk → List ChunkRow → Option (List ChunkRow)
insert_chunks record_id [] rows = some rows
insert_chunks record_id (c ∷ cs) rows =
    let row : ChunkRow = record {
      id = c.id;
      record_id = record_id;
      ord = c.ord;
      text = c.text;
      flushed_at_ms = 0;
    } in
    let rest = insert_chunks record_id cs (rows ++ row ∷ []) in
    if clashes record_id c rows then none else rest

-- One transaction: a failure changes nothing.
unfoldable pub insert_capture : Store → NewRecord → List NewChunk → Result Store StoreError
insert_capture s r chunks =
    if has_record r.id s.records
    then err constraint
    else elim (insert_chunks r.id chunks s.chunks) [
      | none ↦ err constraint
      | some rows ↦ ok (record { records = s.records ++ r ∷ []; chunks = rows })
    ]

-- `chunks c JOIN memory_records r ON r.id = c.record_id`.
unfoldable pub join_rows : List NewRecord → List ChunkRow → List (ChunkRow × NewRecord)
join_rows records chunks =
    filter_map (λ c. map_option (λ r. (c, r)) (find_record c.record_id records)) chunks

abbrev pub is_pending : ChunkRow → Bool
is_pending c = c.flushed_at_ms == 0

-- Rows that compare equal stay as they are, so `before` also holds of ties.
abbrev pub capture_order : ChunkRow × NewRecord → ChunkRow × NewRecord → Bool
capture_order (c, r) (d, s) =
    ltb r.captured_at_ms s.captured_at_ms
    || (r.captured_at_ms == s.captured_at_ms && leb c.ord d.ord)

unfoldable pub pending_chunks : Store → ℕ → List PendingChunk
unfolding join_rows find_record order_by
pending_chunks s limit =
    map
      (λ (c, r). record {
        chunk_id = c.id;
        record_id = c.record_id;
        ord = c.ord;
        text = c.text;
        source = r.source;
        captured_at_ms = r.captured_at_ms;
      })
      (take limit
        (order_by capture_order (keep (λ (c, r). is_pending c) (join_rows s.records s.chunks))))

abbrev pub newest_first : ChunkRow × NewRecord → ChunkRow × NewRecord → Bool
newest_first (c, r) (d, s) = leb s.captured_at_ms r.captured_at_ms

abbrev pub candidate : ChunkRow × NewRecord → PendingContinuityCandidate
candidate (c, r) = record {
  record_id = r.id;
  chunk_id = c.id;
  app_name = r.app_name;
  url = map_option (λ (u : SanitizedUrl). u.text) r.url;
  window_title = r.window_title;
  text = c.text;
  captured_at_ms = r.captured_at_ms;
}

abbrev pub is_candidate : ℕ → ChunkRow × NewRecord → Bool
is_candidate captured_after_ms (c, r) =
    is_pending c && (c.ord == 0 && leb captured_after_ms r.captured_at_ms)

unfoldable pub pending_continuity_candidates : Store → ℕ → ℕ → List PendingContinuityCandidate
pending_continuity_candidates s captured_after_ms limit = map candidate (
    take (min limit 64) (
      order_by newest_first (keep (is_candidate captured_after_ms) (join_rows s.records s.chunks))))

abbrev pub is_pending_chunk : Text → Text → ChunkRow → Bool
is_pending_chunk chunk_id record_id c =
    text_eq c.id chunk_id && (text_eq c.record_id record_id && is_pending c)

abbrev pub refresh : Text → NewRecord → NewRecord → NewRecord
refresh id incoming r =
    if text_eq r.id id
    then record r {
      app_name = incoming.app_name;
      bundle_id = incoming.bundle_id;
      url = incoming.url;
      window_title = incoming.window_title;
      captured_at_ms = incoming.captured_at_ms;
    }
    else r

abbrev pub rewrite : Text → Text → ChunkRow → ChunkRow
rewrite id merged_text c =
    if text_eq c.id id && is_pending c then record c { text = merged_text } else c

-- The Boolean is the source's result; on false the transaction is rolled back.
unfoldable pub merge_pending_capture :
    Store → PendingContinuityCandidate → NewRecord → Text → Store × Bool
merge_pending_capture s c incoming merged_text =
    if has_record c.record_id s.records && any (is_pending_chunk c.chunk_id c.record_id) s.chunks
    then (
      record {
        records = map (refresh c.record_id incoming) s.records;
        chunks = map (rewrite c.chunk_id merged_text) s.chunks;
      },
      true,
    )
    else (s, false)

abbrev pub stamp : Text → ℕ → ChunkRow → ChunkRow
stamp id now_ms c = if text_eq c.id id then record c { flushed_at_ms = now_ms } else c

unfoldable pub mark_chunks_flushed : Store → List Text → ℕ → Store
mark_chunks_flushed s [] now_ms = s
mark_chunks_flushed s (id ∷ ids) now_ms =
    mark_chunks_flushed (record s { chunks = map (stamp id now_ms) s.chunks }) ids now_ms

unfoldable pub reset_flush_state : Store → Store × ℕ
reset_flush_state s = (
  record s { chunks = map (λ (c : ChunkRow). record c { flushed_at_ms = 0 }) s.chunks },
  length s.chunks,
)

-- `DELETE FROM memory_records WHERE id = ?`, with the cascade to `chunks`.
abbrev pub delete_record : Store → Text → Store
delete_record s id = record {
  records = keep (λ (r : NewRecord). not (text_eq r.id id)) s.records;
  chunks = keep (λ (c : ChunkRow). not (text_eq c.record_id id)) s.chunks;
}

unfoldable pub delete_records : Store → List Text → Store × ℕ
delete_records s [] = (s, 0)
delete_records s (id ∷ ids) =
    let gone = length (keep (λ r. text_eq r.id id) s.records) in
    let (rest, deleted) = delete_records (delete_record s id) ids in (rest, gone + deleted)
