-- ===== src/Mcp/Audited.antt =====
-- crates/fndr-mcp/src/server.rs: what the audit log says of the text that is handed out.
use fndr.Prelude.{
  length, ℕ, ◌+◌, ◌≡◌, refl, Bool, true, false, List, [], ◌∷◌, ◌++◌, map, Option, none, some,
  Result, ok, err, unwrap_or, any,
}
use fndr.Text.{Text, codes}
use fndr.Store.{Store}
use fndr.Store.Reading.{ChunkEvidence, RecordEvidence, record_evidence}
use fndr.Store.Ledgers.{AuditEntry, record_tool_call}
use fndr.Mcp.Tools.{
  ErrorData, invalid_params, audit, ChunkEvidenceOut, SourceEvidenceOutput, chunk_out, evidence_out,
  source_evidence_inner, source_evidence,
}

-- A text of a capture.
abbrev pub has_text : ChunkEvidenceOut → Bool
has_text c = elim c.text [ none ↦ false | some t ↦ true ]

abbrev pub releases : Result SourceEvidenceOutput ErrorData → Bool
releases (ok o) = any has_text o.chunks
releases (err e) = false

no_text : (cs : List ChunkEvidence) → any has_text (map (chunk_out false) cs) ≡ false
no_text [] = refl
no_text (c ∷ cs) = no_text cs

audited_cases :
    (o : Option RecordEvidence) (include_raw : Option Bool) (now_ms : ℕ) (rows : List AuditEntry)
    → let inner : Result SourceEvidenceOutput ErrorData = elim o [
      | none ↦ err (invalid_params (codes "unknown record_id"))
      | some evidence ↦ ok (evidence_out (unwrap_or false include_raw) evidence)
    ] in
      releases inner ≡ true
      → (include_raw ≡ some true)
        × ((audit (codes "fndr.source_evidence") (unwrap_or false include_raw) inner now_ms rows).1
            ≡ record_tool_call rows now_ms (codes "fndr.source_evidence") (codes "ok") true)
unfolding audit
audited_cases none include_raw now_ms rows h = absurd (cc)
audited_cases (some e) none now_ms rows h = absurd (cc (no_text e.chunks))
audited_cases (some e) (some false) now_ms rows h = absurd (cc (no_text e.chunks))
audited_cases (some e) (some true) now_ms rows h = (refl, refl)

-- If an answer about a record carries the text of a capture, then the caller asked for it, and the
-- audit log has gained one row at its end, with the next id and the time of the call, that says that
-- this tool released it.
pub source_evidence_audited :
    (s : Store) (record_id : Text) (include_raw : Option Bool) (now_ms : ℕ) (rows : List AuditEntry)
    → releases (source_evidence s record_id include_raw now_ms rows).0 ≡ true
    → (include_raw ≡ some true)
      × ((source_evidence s record_id include_raw now_ms rows).1
          ≡ rows
            ++ (record {
              id = length rows + 1;
              at_ms = now_ms;
              tool = codes "fndr.source_evidence";
              outcome = codes "ok";
              raw_released = true;
            }
                ∷ []))
unfolding source_evidence_inner source_evidence audit record_tool_call
source_evidence_audited s record_id include_raw now_ms rows h =
    audited_cases (record_evidence s record_id) include_raw now_ms rows h
