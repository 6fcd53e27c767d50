-- ===== src/Retrieval/Search.antt =====
-- crates/fndr-shell/src/search.rs: the owner's search, the keyword route first and then the semantic
-- one. The vault is opened for each phase; `none` is a vault that cannot be opened.
use fndr.Prelude.{
  ℕ, Bool, not, List, [], ◌∷◌, ◌++◌, Option, none, some, Result, ok, err, if◌then◌else◌, take,
  map_option,
}
use fndr.Text.{Text, codes, text_eq}
use fndr.Platform.{Platform}
use fndr.Store.{Store}
use fndr.Store.Reading.{ChunkSearchHit, RecordEvidence, record_evidence}
use fndr.Retrieval.{
  Route, TaggedHit, VectorHit, VectorSearchError, VectorIndex, keyword_hits, vector_hits,
  tag_vector_hits_with_snippets,
}

pub data VectorRouteState : Type 0 where
  available model_missing index_missing failed : VectorRouteState

pub data MemoryVaultState : Type 0 where
  ready not_created : MemoryVaultState

pub record MemorySearchHit : Type 0 where
  pub record_id : Text
  pub chunk_id : Text
  pub app_name : Option Text
  pub captured_at_ms : ℕ
  pub snippet : Text
  pub route : Route

pub record MemorySearchResults : Type 0 where
  pub query : Text
  pub hits : List MemorySearchHit
  pub vault : MemoryVaultState
  pub vector_route : VectorRouteState

-- `by_record` of `AppNameCache`.
abbrev pub AppNameCache : Type 0
AppNameCache = List (Text × Option Text)

abbrev pub cached : Text → AppNameCache → Option (Option Text)
cached record_id [] = none
cached record_id ((id, name) ∷ rest) =
    let later = cached record_id rest in if text_eq id record_id then some name else later

unfoldable pub app_name : AppNameCache → Store → Text → Option Text × AppNameCache
app_name cache s record_id = elim (cached record_id cache) [
  | some name ↦ (name, cache)
  | none ↦
      let name = map_option (λ (e : RecordEvidence). e.app_name) (record_evidence s record_id) in
      (name, (record_id, name) ∷ cache)
]

unfoldable pub hits_from :
    AppNameCache → Store → List TaggedHit → List MemorySearchHit × AppNameCache
unfolding app_name
hits_from cache s [] = ([], cache)
hits_from cache s (h ∷ hs) =
    let (name, cache1) = app_name cache s h.record_id in
    let (rest, cache2) = hits_from cache1 s hs in
    (
      record {
        record_id = h.record_id;
        chunk_id = h.chunk_id;
        app_name = name;
        captured_at_ms = h.captured_at_ms;
        snippet = h.snippet;
        route = h.route;
      }
          ∷ rest,
      cache2,
    )

-- The reasons the semantic route cannot run: no embedder, no index directory.
unfoldable pub unavailable_vector_route : {X : Type 0} → Bool → Option X → Option VectorRouteState
unavailable_vector_route index_dir_exists none = some model_missing
unavailable_vector_route index_dir_exists (some x) =
    if not index_dir_exists then some index_missing else none

-- What the files are: whether the database and the index directory exist.
pub record MemorySearchFiles : Type 0 where
  pub database_exists : Bool
  pub index_dir_exists : Bool

abbrev pub search_unavailable : Text
search_unavailable = codes "memory_search_unavailable"

module _ {D E : Type 0} where
  -- The third phase: hits of the semantic route, tagged with the vault as it is then.
  abbrev pub phase3 :
      AppNameCache
      → List MemorySearchHit
      → Option Store
      → Result (List (VectorHit D)) (VectorSearchError E)
      → Result (List MemorySearchHit × VectorRouteState) Text
  phase3 cache hits vault (err e) = ok (hits, failed)
  phase3 cache hits vault (ok []) = ok (hits, available)
  phase3 cache hits none (ok (h ∷ hs)) = err search_unavailable
  phase3 cache hits (some s) (ok (h ∷ hs)) =
      ok (hits ++ (hits_from cache s (tag_vector_hits_with_snippets s (h ∷ hs))).0, available)

abbrev pub results :
    Text
    → ℕ
    → Result (List MemorySearchHit × VectorRouteState) Text
    → Result MemorySearchResults Text
results query limit (err e) = err e
results query limit (ok (hits, state)) =
    ok (record { query = query; hits = take limit hits; vault = ready; vector_route = state })

abbrev pub or_missing : Option VectorRouteState → VectorRouteState
or_missing none = index_missing
or_missing (some state) = state

module _ {V D E : Type 0} where
  -- The second phase, if the route can run.
  abbrev pub phase2 :
      AppNameCache
      → List MemorySearchHit
      → List Text
      → Option Store
      → Option VectorRouteState
      → Option (VectorIndex V D E)
      → Text
      → ℕ
      → Result (List MemorySearchHit × VectorRouteState) Text
  phase2 cache hits seen vault (some state) embedder query limit = ok (hits, state)
  phase2 cache hits seen vault none none query limit = ok (hits, model_missing)
  phase2 cache hits seen vault none (some ix) query limit =
      phase3 cache hits vault (vector_hits ix query limit seen)

module _ {Url V D E : Type 0} (pf : Platform Url) (fts : Store → Text → List ChunkSearchHit) where
  -- The first phase, on the opened vault, and the others.
  abbrev pub phase1 :
      Option Store
      → Option Store
      → Option VectorRouteState
      → Option (VectorIndex V D E)
      → Text
      → ℕ
      → Result MemorySearchResults Text
  phase1 none vault3 route embedder query limit = err search_unavailable
  phase1 (some s) vault3 route embedder query limit =
      let (tagged, seen) = keyword_hits pf fts s query limit [] in
      let (hits, cache) = hits_from [] s tagged in
      results query limit (phase2 cache hits seen vault3 route embedder query limit)

  -- `search_memories`, with the vault as the first and as the third phase open it.
  unfoldable pub search_memories :
      MemorySearchFiles
      → Option Store
      → Option Store
      → Option (VectorIndex V D E)
      → Text
      → ℕ
      → Result MemorySearchResults Text
  unfolding unavailable_vector_route
  search_memories files vault1 vault3 embedder query limit =
      let route = unavailable_vector_route files.index_dir_exists embedder in
      if not files.database_exists
      then ok (record {
        query = query;
        hits = [];
        vault = not_created;
        vector_route = or_missing route;
      })
      else phase1 vault1 vault3 route embedder query limit
