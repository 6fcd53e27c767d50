-- ===== src/Tests/Vault.antt =====
-- Deletion and search: small runs, and the theorems at concrete inputs.
use fndr.Prelude.{
  ℕ, ◌≡◌, refl, true, false, List, [], ◌∷◌, ◌++◌, map, some, ok, err, order_by, place,
}
use fndr.Text.{
  Text, codes, text_eq, join, is_empty, trim, trim_start_matches, trim_end_matches,
  split_whitespace, split_on, is_whitespace, is_ascii_alphanumeric, is_ascii_digit,
}
use fndr.Store.{Store, constraint, delete_records, find_record}
use fndr.Store.Deletion.{
  record_ids, time_range, text_le, dedup, record_ids_for_delete, delete_predicate, DeleteIndex,
  delete_rows, delete_everywhere,
}
use fndr.Store.Deleted.{targeted}
use fndr.Store.Cleared.{Outcome, delete_everywhere-Outcome}
use fndr.Store.Predicate.{Spells, delete_predicate-Spells}
use fndr.Store.Reading.{
  ChunkSearchHit, chunk_evidence, record_evidence, latest_record_id, fts_terms, fts_query,
  search_chunks,
}
use fndr.Store.Ledgers.{AuditEntry, record_tool_call, recent_tool_calls, remember_decision}
use fndr.Retrieval.{
  VectorHit, VectorIndex, keyword_hits, filter_new, vector_hit_snippet,
  tag_vector_hits_with_snippets, vector_search, vector_hits,
}
use fndr.Retrieval.Search.{
  MemorySearchFiles, app_name, hits_from, search_memories, unavailable_vector_route,
}
use fndr.Retrieval.Merged.{Merged, ListsOnce, search_memories-Merged}
use fndr.Tests.Web.{web}
use fndr.Tests.Flush.{one_chunk}

-- An index that holds two rows of what it is asked to delete.
abbrev lance : DeleteIndex (Unit {0}) ℕ
lance = record { open_table = λ w. (ok true, w); delete = λ predicate w. (ok 2, w) }

abbrev hit : ChunkSearchHit
hit = record {
  chunk_id = codes "c1";
  record_id = codes "r1";
  source = codes "screen";
  captured_at_ms = 1_000;
  snippet = codes "[budget]";
}

-- A full-text index that finds the one chunk for every expression.
abbrev fts : Store → Text → List ChunkSearchHit
fts s expression = hit ∷ []

fts_once : ListsOnce fts
fts_once s expression = (refl, tt)

-- Lance finds the same chunk, and another one twice.
abbrev near_hit : VectorHit ℕ
near_hit = record {
  record_id = codes "r1";
  chunk_id = codes "c1";
  source = codes "screen";
  captured_at_ms = 1_000;
  distance = 1;
}

abbrev vectors : VectorIndex ℕ ℕ ℕ
vectors = record {
  dim = 1;
  vector_len = λ v. 1;
  embed_query = λ t. ok 7;
  nearest = λ v limit. ok (
      near_hit
      ∷ record near_hit { chunk_id = codes "c2" }
      ∷ record near_hit { chunk_id = codes "c2" }
      ∷ []);
}

abbrev files : MemorySearchFiles
files = record { database_exists = true; index_dir_exists = true }

program : Unit {0}
unfolding text_eq join is_empty trim trim_start_matches trim_end_matches split_whitespace split_on
    is_whitespace is_ascii_alphanumeric is_ascii_digit find_record text_le dedup
    record_ids_for_delete delete_records delete_predicate delete_rows delete_everywhere order_by
    place chunk_evidence record_evidence latest_record_id fts_terms fts_query search_chunks
    record_tool_call recent_tool_calls remember_decision keyword_hits filter_new vector_hit_snippet
    tag_vector_hits_with_snippets vector_search vector_hits app_name hits_from search_memories
    unavailable_vector_route
program = tt
  where
    sorted_once :
        dedup (order_by text_le (codes "b" ∷ codes "a" ∷ codes "b" ∷ []))
        ≡ codes "a" ∷ codes "b" ∷ []
    sorted_once = refl

    escaped : delete_predicate (codes "o'clock" ∷ []) ≡ codes "record_id IN ('o''clock')"
    escaped = refl

    deleted :
        (delete_everywhere lance web one_chunk tt (time_range 500 1_500)).0
        ≡ record { records = []; chunks = [] }
    deleted = refl

    expression : fts_query web (codes "\"budget\" * 2026!") ≡ some (codes "\"budget\" AND \"2026\"")
    expression = refl

    latest : latest_record_id one_chunk ≡ some (codes "r1")
    latest = refl

    audited :
        map
          (λ (e : AuditEntry). e.id)
          (recent_tool_calls
            (record_tool_call
              (record_tool_call [] 5 (codes "a") (codes "ok") false)
              6
              (codes "b")
              (codes "ok")
              true)
            1)
        ≡ 2 ∷ []
    audited = refl

    unknown_record :
        remember_decision one_chunk [] 5 (codes "ship") (some (codes "r2")) ≡ err constraint
    unknown_record = refl

    merged :
        map (λ (h : VectorHit ℕ). h.chunk_id) (filter_new (near_hit ∷ near_hit ∷ []) [])
        ≡ codes "c1" ∷ []
    merged = refl

delete_everywhere-Outcome_example :
    Outcome lance
      (targeted web (record_ids (codes "r1" ∷ [])) one_chunk.records)
      one_chunk
      (delete_everywhere lance web one_chunk tt (record_ids (codes "r1" ∷ [])))
delete_everywhere-Outcome_example =
    delete_everywhere-Outcome lance web one_chunk tt (record_ids (codes "r1" ∷ []))

delete_predicate-Spells_example :
    (t : Text) × (delete_predicate (codes "o'clock" ∷ codes "') OR 1=1 --" ∷ [])
      ≡ codes "record_id IN (" ++ t)
    × Spells t (codes "o'clock" ∷ codes "') OR 1=1 --" ∷ [])
delete_predicate-Spells_example =
    delete_predicate-Spells (codes "o'clock" ∷ codes "') OR 1=1 --" ∷ [])

search_memories-Merged_example : Merged 10 (
    search_memories web fts files
      (some one_chunk)
      (some one_chunk)
      (some vectors)
      (codes "budget")
      10)
search_memories-Merged_example =
    search_memories-Merged web fts files (some one_chunk) (some one_chunk) (some vectors)
      (codes "budget") 10 fts_once
