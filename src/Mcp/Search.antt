-- ===== src/Mcp/Search.antt =====
-- crates/fndr-mcp/src/server.rs: `fndr.search`. The store is taken as it is when the keyword route
-- reads it, and as it is when the snippets of the other route are built.
-- A `SearchHitOut` has the fields of a `TaggedHit`; `describe` prints an error.
use fndr.Prelude.{
  ℕ, Bool, true, false, List, [], ◌++◌, Option, none, some, Result, ok, err, unwrap_or, min, take,
}
use fndr.Text.{Text, codes}
use fndr.Platform.{Platform}
use fndr.Store.{Store}
use fndr.Store.Reading.{ChunkSearchHit}
use fndr.Store.Ledgers.{AuditEntry}
use fndr.Retrieval.{
  TaggedHit, VectorIndex, VectorSearchError, keyword_hits, vector_hits,
  tag_vector_hits_with_snippets,
}
use fndr.Mcp.Tools.{ErrorData, internal_error, audit}

pub record SearchOutput : Type 0 where
  pub hits : List TaggedHit
  pub vector_route_available : Bool

module _ {Url V D E : Type 0} (pf : Platform Url) (match_fts : Store → Text → List ChunkSearchHit)
    (describe : VectorSearchError E → Text) where
  unfoldable pub search_inner :
      Store → Store → Option (VectorIndex V D E) → Text → Option ℕ → Result SearchOutput ErrorData
  search_inner s later route query limit =
      let n = min (unwrap_or 10 limit) 50 in
      let (hits, seen) = keyword_hits pf match_fts s query n [] in
      elim route [
        | none ↦ ok (record { hits = take n hits; vector_route_available = false })
        | some ix ↦ elim (vector_hits ix query n seen) [
          | err e ↦ err (internal_error (describe e))
          | ok raw_hits ↦ ok (record {
            hits = take n (hits ++ tag_vector_hits_with_snippets later raw_hits);
            vector_route_available = true;
          })
        ]
      ]

  unfoldable pub search :
      Store
      → Store
      → Option (VectorIndex V D E)
      → Text
      → Option ℕ
      → ℕ
      → List AuditEntry
      → Result SearchOutput ErrorData × List AuditEntry
  unfolding search_inner audit
  search s later route query limit now_ms rows =
      audit (codes "fndr.search") false (search_inner s later route query limit) now_ms rows
