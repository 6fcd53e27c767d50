-- ===== src/Mcp/Tools.antt =====
-- crates/fndr-mcp/src/server.rs: the tools that hand out what is stored, and the row of the audit log
-- that each call leaves. Locks and SQLite do not fail here. A time that the source prints as `f64` is
-- the number it is.
use fndr.Prelude.{
  ℕ, ◌+◌, ◌*◌, ◌/◌, ◌%◌, ◌^◌, Bool, true, false, ◌&&◌, List, [], ◌∷◌, ◌++◌, map, Option, none, some,
  Result, ok, err, if◌then◌else◌, ltb, unwrap_or, min,
}
use fndr.Text.{Text, codes, text_eq, trim, is_empty, str_len}
use fndr.Platform.{Platform}
use fndr.Store.{Store}
use fndr.Store.Reading.{
  ChunkEvidence, RecordEvidence, ChunkSearchHit, record_evidence, search_chunks,
}
use fndr.Store.Ledgers.{AuditEntry, record_tool_call}

-- The two kinds of refusal, with their messages.
pub data ErrorData : Type 0 where
  invalid_params internal_error : Text → ErrorData

abbrev pub is_ok : {A : Type 0} → Result A ErrorData → Bool
is_ok (ok a) = true
is_ok (err e) = false

unfoldable pub audit :
    {A : Type 0}
    → Text
    → Bool
    → Result A ErrorData
    → ℕ
    → List AuditEntry
    → Result A ErrorData × List AuditEntry
audit tool raw_released result now_ms rows = (
  result,
  record_tool_call rows now_ms tool (if is_ok result then codes "ok" else codes "refused")
      (raw_released && is_ok result),
)

pub record ChunkEvidenceOut : Type 0 where
  pub chunk_id : Text
  pub ord : ℕ
  pub text_len : ℕ
  pub text : Option Text

pub record SourceEvidenceOutput : Type 0 where
  pub record_id : Text
  pub session_id : Text
  pub source : Text
  pub app_name : Text
  pub bundle_id : Option Text
  pub url : Option Text
  pub window_title : Text
  pub captured_at_ms : ℕ
  pub chunks : List ChunkEvidenceOut
  pub raw_included : Bool

abbrev pub chunk_out : Bool → ChunkEvidence → ChunkEvidenceOut
chunk_out include_raw chunk = record {
  chunk_id = chunk.chunk_id;
  ord = chunk.ord;
  text_len = str_len chunk.text % 2 ^ 32;
  text = if include_raw then some chunk.text else none;
}

abbrev pub evidence_out : Bool → RecordEvidence → SourceEvidenceOutput
evidence_out include_raw evidence = record {
  record_id = evidence.record_id;
  session_id = evidence.session_id;
  source = evidence.source;
  app_name = evidence.app_name;
  bundle_id = evidence.bundle_id;
  url = evidence.url;
  window_title = evidence.window_title;
  captured_at_ms = evidence.captured_at_ms;
  chunks = map (chunk_out include_raw) evidence.chunks;
  raw_included = include_raw;
}

unfoldable pub source_evidence_inner :
    Store → Text → Option Bool → Result SourceEvidenceOutput ErrorData
source_evidence_inner s record_id include_raw = elim (record_evidence s record_id) [
  | none ↦ err (invalid_params (codes "unknown record_id"))
  | some evidence ↦ ok (evidence_out (unwrap_or false include_raw) evidence)
]

unfoldable pub source_evidence :
    Store
    → Text
    → Option Bool
    → ℕ
    → List AuditEntry
    → Result SourceEvidenceOutput ErrorData × List AuditEntry
unfolding source_evidence_inner audit
source_evidence s record_id include_raw now_ms rows =
    audit (codes "fndr.source_evidence") (unwrap_or false include_raw)
      (source_evidence_inner s record_id include_raw) now_ms rows

abbrev pub chars_per_estimated_token : ℕ
chars_per_estimated_token = 4

pub record PackedEvidence : Type 0 where
  pub record_id : Text
  pub chunk_id : Text
  pub app_name : Text
  pub window_title : Text
  pub url : Option Text
  pub captured_at_ms : ℕ
  pub text : Text
  pub estimated_tokens : ℕ

pub record ContextPackOutput : Type 0 where
  pub goal : Text
  pub retrieval_route : Text
  pub token_budget : ℕ
  pub estimated_tokens_used : ℕ
  pub items : List PackedEvidence
  pub dropped_for_budget : ℕ

-- `div_ceil(CHARS_PER_ESTIMATED_TOKEN) as u32`.
abbrev pub estimate : ℕ → ℕ
estimate chars = ((chars + 3) / chars_per_estimated_token) % 2 ^ 32

abbrev pub chunk_of : Text → List ChunkEvidence → Option ChunkEvidence
chunk_of chunk_id [] = none
chunk_of chunk_id (chunk ∷ chunks) =
    let rest = chunk_of chunk_id chunks in
    if text_eq chunk.chunk_id chunk_id then some chunk else rest

-- The variables of the loop in `context_pack_inner`.
pub record PackState : Type 0 where
  pub items : List PackedEvidence
  pub used_chars : ℕ
  pub dropped_for_budget : ℕ

abbrev pub packed : RecordEvidence → ChunkEvidence → PackedEvidence
packed evidence chunk = record {
  record_id = evidence.record_id;
  chunk_id = chunk.chunk_id;
  app_name = evidence.app_name;
  window_title = evidence.window_title;
  url = evidence.url;
  captured_at_ms = evidence.captured_at_ms;
  text = chunk.text;
  estimated_tokens = estimate (str_len chunk.text);
}

abbrev pub pack_chunk : ℕ → RecordEvidence → ChunkEvidence → PackState → PackState
pack_chunk budget_chars evidence chunk p =
    if ltb budget_chars (p.used_chars + str_len chunk.text)
    then record p { dropped_for_budget = p.dropped_for_budget + 1 }
    else record p {
      used_chars = p.used_chars + str_len chunk.text;
      items = p.items ++ (packed evidence chunk ∷ []);
    }

unfoldable pub pack_hit : Store → ℕ → ChunkSearchHit → PackState → PackState
pack_hit s budget_chars hit p = elim (record_evidence s hit.record_id) [
  | none ↦ p
  | some evidence ↦ elim (chunk_of hit.chunk_id evidence.chunks) [
    | none ↦ p
    | some chunk ↦ pack_chunk budget_chars evidence chunk p
  ]
]

unfoldable pub pack_hits : Store → ℕ → List ChunkSearchHit → PackState → PackState
pack_hits s budget_chars [] p = p
pack_hits s budget_chars (hit ∷ hits) p =
    pack_hits s budget_chars hits (pack_hit s budget_chars hit p)

module _ {Url : Type 0} (pf : Platform Url) (match_fts : Store → Text → List ChunkSearchHit) where
  unfoldable pub context_pack_inner :
      Store → Text → Option ℕ → Option ℕ → Result ContextPackOutput ErrorData
  context_pack_inner s goal token_budget max_records =
      let budget = min (unwrap_or 2_000 token_budget) 8_000 in
      let hits = search_chunks pf match_fts s goal (min (unwrap_or 20 max_records) 100) in
      let p =
        pack_hits s (budget * chars_per_estimated_token) hits
          (record { items = []; used_chars = 0; dropped_for_budget = 0 }) in
      if is_empty (trim goal)
      then err (invalid_params (codes "goal must not be empty"))
      else ok (record {
        goal = goal;
        retrieval_route = codes "keyword";
        token_budget = budget;
        estimated_tokens_used = estimate p.used_chars;
        items = p.items;
        dropped_for_budget = p.dropped_for_budget;
      })

  unfoldable pub context_pack :
      Store
      → Text
      → Option ℕ
      → Option ℕ
      → ℕ
      → List AuditEntry
      → Result ContextPackOutput ErrorData × List AuditEntry
  unfolding context_pack_inner audit
  context_pack s goal token_budget max_records now_ms rows =
      audit (codes "fndr.context_pack") true (context_pack_inner s goal token_budget max_records)
        now_ms rows
