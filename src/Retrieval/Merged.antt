-- ===== src/Retrieval/Merged.antt =====
-- crates/fndr-shell/src/search.rs: what the merged hits hold.
use fndr.Prelude.{
  ℕ, zero, suc, ◌≤◌, ◌≡◌, refl, sym, ◌∙◌, ap, subst, false, List, [], ◌∷◌, ◌++◌, map, Option, none,
  some, Result, ok, err, arith, take, length, length-take, min, not, if-cases, Bool-cases, inl, inr,
}
use fndr.Text.{Text, one_of}
use fndr.Platform.{Platform}
use fndr.Store.{Store}
use fndr.Store.Reading.{ChunkSearchHit, search_chunks, fts_query}
use fndr.Retrieval.{
  TaggedHit, VectorHit, VectorSearchError, VectorIndex, insert_seen, insert_all, tag_keyword,
  keyword_hits, filter_new, vector_hits, vector_search, tag_vector_hits_with_snippets,
}
use fndr.Retrieval.Search.{
  MemorySearchHit, MemorySearchResults, MemorySearchFiles, AppNameCache, hits_from, phase1, phase2,
  phase3, results, search_memories, VectorRouteState, unavailable_vector_route,
}

-- No text is in `seen` or comes twice.
abbrev pub Fresh : List Text → List Text → Type 0
Fresh seen [] = Unit
Fresh seen (t ∷ ts) = (one_of t seen ≡ false) × Fresh (t ∷ seen) ts

abbrev pub chunk_ids : List MemorySearchHit → List Text
chunk_ids = map (λ (h : MemorySearchHit). h.chunk_id)

abbrev tagged_ids : List TaggedHit → List Text
tagged_ids = map (λ (h : TaggedHit). h.chunk_id)

insert_new : (t : Text) (seen : List Text) → one_of t seen ≡ false → insert_seen t seen ≡ t ∷ seen
insert_new t seen h = rw h refl

-- What the filter passes is fresh.
filter_new-Fresh :
    {D : Type 0} (hits : List (VectorHit D)) (seen : List Text)
    → Fresh seen (map (λ (h : VectorHit D). h.chunk_id) (filter_new hits seen))
unfolding filter_new
filter_new-Fresh [] seen = tt
filter_new-Fresh (h ∷ hs) seen = elim (Bool-cases (one_of h.chunk_id seen)) [
  | inl e ↦ rw e (filter_new-Fresh hs seen)
  | inr e ↦ rw e (e, filter_new-Fresh hs (h.chunk_id ∷ seen))
]

hits_from-ids :
    (s : Store) (hs : List TaggedHit) (cache : AppNameCache)
    → chunk_ids (hits_from cache s hs).0 ≡ tagged_ids hs
unfolding hits_from
hits_from-ids s [] cache = refl
hits_from-ids s (h ∷ hs) cache = ap (λ ts. h.chunk_id ∷ ts) (hits_from-ids s hs _)

vector_ids :
    {D : Type 0} (s : Store) (hs : List (VectorHit D))
    → tagged_ids (tag_vector_hits_with_snippets s hs) ≡ map (λ (h : VectorHit D). h.chunk_id) hs
unfolding tag_vector_hits_with_snippets
vector_ids s [] = refl
vector_ids s (h ∷ hs) = ap (λ ts. h.chunk_id ∷ ts) (vector_ids s hs)

-- What has been seen after a list.
abbrev seen_after : List Text → List Text → List Text
seen_after seen [] = seen
seen_after seen (t ∷ ts) = seen_after (t ∷ seen) ts

Fresh-append :
    (seen a b : List Text) → Fresh seen a → Fresh (seen_after seen a) b → Fresh seen (a ++ b)
Fresh-append seen [] b h k = k
Fresh-append seen (t ∷ a) b h k = (h.0, Fresh-append (t ∷ seen) a b h.1 k)

Fresh-take : (n : ℕ) (seen ts : List Text) → Fresh seen ts → Fresh seen (take n ts)
Fresh-take zero seen ts h = tt
Fresh-take (suc n) seen [] h = tt
Fresh-take (suc n) seen (t ∷ ts) h = (h.0, Fresh-take n (t ∷ seen) ts h.1)

map-take : {A B : Type 0} (f : A → B) (n : ℕ) (xs : List A) → map f (take n xs) ≡ take n (map f xs)
map-take f zero xs = refl
map-take f (suc n) [] = refl
map-take f (suc n) (x ∷ xs) = ap (λ ys. f x ∷ ys) (map-take f n xs)

insert_all_lem :
    (hs : List TaggedHit) (seen : List Text)
    → Fresh seen (tagged_ids hs)
    → insert_all hs seen ≡ seen_after seen (tagged_ids hs)
insert_all_lem [] seen h = refl
insert_all_lem (x ∷ hs) seen h =
    ap (insert_all hs) (insert_new x.chunk_id seen h.0) ∙ insert_all_lem hs (x.chunk_id ∷ seen) h.1

chunk_ids-append : (a b : List MemorySearchHit) → chunk_ids (a ++ b) ≡ chunk_ids a ++ chunk_ids b
chunk_ids-append [] b = refl
chunk_ids-append (x ∷ a) b = ap (λ ts. x.chunk_id ∷ ts) (chunk_ids-append a b)

keyword_ids :
    (hs : List ChunkSearchHit)
    → tagged_ids (map tag_keyword hs) ≡ map (λ (h : ChunkSearchHit). h.chunk_id) hs
keyword_ids [] = refl
keyword_ids (h ∷ hs) = ap (λ ts. h.chunk_id ∷ ts) (keyword_ids hs)

-- The index lists each chunk once.
abbrev pub ListsOnce : (Store → Text → List ChunkSearchHit) → Type 0
ListsOnce fts =
    (s : Store) (e : Text) → Fresh [] (map (λ (h : ChunkSearchHit). h.chunk_id) (fts s e))

-- At most `limit` hits, each of another chunk; nothing is said of an error.
abbrev pub Merged : ℕ → Result MemorySearchResults Text → Type 0
Merged limit (err e) = Unit
Merged limit (ok r) = (length r.hits ≤ limit) × Fresh [] (chunk_ids r.hits)

abbrev Hits : Result (List MemorySearchHit × VectorRouteState) Text → Type 0
Hits (err e) = Unit
Hits (ok (hits, state)) = Fresh [] (chunk_ids hits)

results-Merged :
    (query : Text) (limit : ℕ) (r : Result (List MemorySearchHit × VectorRouteState) Text)
    → Hits r
    → Merged limit (results query limit r)
results-Merged query limit (err e) h = tt
results-Merged query limit (ok (hits, state)) h = (
  omega (arith, length-take limit hits),
  subst (Fresh []) (sym (map-take (λ (x : MemorySearchHit). x.chunk_id) limit hits))
      (Fresh-take limit [] _ h),
)

module _ {D E : Type 0} where
  -- Hits that are fresh after those seen.
  abbrev Passed : List Text → Result (List (VectorHit D)) (VectorSearchError E) → Type 0
  Passed seen (err e) = Unit
  Passed seen (ok hits) = Fresh seen (map (λ (h : VectorHit D). h.chunk_id) hits)

  phase3-Hits :
      (cache : AppNameCache) (hits : List MemorySearchHit) (vault : Option Store)
      (r : Result (List (VectorHit D)) (VectorSearchError E))
      → Fresh [] (chunk_ids hits)
      → Passed (seen_after [] (chunk_ids hits)) r
      → Hits (phase3 cache hits vault r)
  phase3-Hits cache hits vault (err e) h k = h
  phase3-Hits cache hits vault (ok []) h k = h
  phase3-Hits cache hits none (ok (x ∷ xs)) h k = tt
  phase3-Hits cache hits (some s) (ok (x ∷ xs)) h k =
      subst (Fresh []) (sym (chunk_ids-append hits _)) (
        Fresh-append [] (chunk_ids hits) _ h (
          subst (Fresh (seen_after [] (chunk_ids hits)))
            (sym (hits_from-ids s _ cache ∙ vector_ids s (x ∷ xs))) k))

module _ {V D E : Type 0} where
  vector_hits-Passed :
      (ix : VectorIndex V D E) (query : Text) (limit : ℕ) (seen : List Text)
      → Passed seen (vector_hits ix query limit seen)
  unfolding vector_hits
  vector_hits-Passed ix query limit seen = go (vector_search ix query limit)
    where
      go :
          (r : Result (List (VectorHit D)) (VectorSearchError E))
          → Passed seen (elim r as (λ _. Result (List (VectorHit D)) (VectorSearchError E)) [
            | err e ↦ err e
            | ok hits ↦ ok (filter_new hits seen)
          ])
      go (err e) = tt
      go (ok hits) = filter_new-Fresh hits seen

  phase2-Hits :
      (cache : AppNameCache) (hits : List MemorySearchHit) (vault : Option Store)
      (route : Option VectorRouteState) (embedder : Option (VectorIndex V D E)) (query : Text)
      (limit : ℕ)
      → Fresh [] (chunk_ids hits)
      → Hits (phase2 cache hits (seen_after [] (chunk_ids hits)) vault route embedder query limit)
  phase2-Hits cache hits vault (some state) embedder query limit h = h
  phase2-Hits cache hits vault none none query limit h = h
  phase2-Hits cache hits vault none (some ix) query limit h =
      phase3-Hits cache hits vault _ h (vector_hits-Passed ix query limit _)

module _ {Url : Type 0} (pf : Platform Url) (fts : Store → Text → List ChunkSearchHit) where
  search_chunks-Fresh :
      (s : Store) (query : Text) (limit : ℕ)
      → ListsOnce fts
      → Fresh [] (map (λ (h : ChunkSearchHit). h.chunk_id) (search_chunks pf fts s query limit))
  unfolding search_chunks
  search_chunks-Fresh s query limit once = go (fts_query pf query)
    where
      go :
          (o : Option Text)
          → Fresh [] (
              map
                (λ (h : ChunkSearchHit). h.chunk_id)
                (elim o as (λ _. List ChunkSearchHit) [
                  | none ↦ []
                  | some expression ↦ take (min limit 50) (fts s expression)
                ]))
      go none = tt
      go (some expression) =
          subst (Fresh []) (sym (map-take (λ (h : ChunkSearchHit). h.chunk_id) (min limit 50) _))
            (Fresh-take (min limit 50) [] _ (once s expression))

module _ {Url V D E : Type 0} (pf : Platform Url) (fts : Store → Text → List ChunkSearchHit) where
  phase1-Merged :
      (vault1 vault3 : Option Store) (route : Option VectorRouteState)
      (embedder : Option (VectorIndex V D E)) (query : Text) (limit : ℕ)
      → ListsOnce fts
      → Merged limit (phase1 pf fts vault1 vault3 route embedder query limit)
  unfolding keyword_hits
  phase1-Merged none vault3 route embedder query limit once = tt
  phase1-Merged (some s) vault3 route embedder query limit once =
      let tagged = map tag_keyword (search_chunks pf fts s query limit) in
      let fresh : Fresh [] (tagged_ids tagged) =
        subst (Fresh []) (sym (keyword_ids _)) (search_chunks-Fresh pf fts s query limit once) in
      let same = hits_from-ids s tagged [] in
      results-Merged query limit _ (
        subst
          (λ seen. Hits (
            phase2 (hits_from [] s tagged).1 (hits_from [] s tagged).0 seen vault3 route embedder
              query limit))
          (ap (seen_after []) same ∙ sym (insert_all_lem tagged [] fresh))
          (phase2-Hits (hits_from [] s tagged).1 (hits_from [] s tagged).0 vault3 route embedder
            query limit (subst (Fresh []) (sym same) fresh)))

  -- If the full-text index lists each chunk once, a search answers at most `limit` hits, and no
  -- chunk twice: not within a route and not across the two.
  pub search_memories-Merged :
      (files : MemorySearchFiles) (vault1 vault3 : Option Store)
      (embedder : Option (VectorIndex V D E)) (query : Text) (limit : ℕ)
      → ListsOnce fts
      → Merged limit (search_memories pf fts files vault1 vault3 embedder query limit)
  unfolding search_memories
  search_memories-Merged files vault1 vault3 embedder query limit once =
      if-cases (Merged limit) (not files.database_exists) (λ e. (omega arith, tt))
        (λ e.
          phase1-Merged vault1 vault3 (unavailable_vector_route files.index_dir_exists embedder)
            embedder query limit once)
