-- ===== src/Tests/Tools.antt =====
-- The server's tools and the preprocessing of recognised lines at concrete inputs.
use fndr.Prelude.{◌≡◌, refl, false, true, List, [], ◌∷◌, map, none, some, ok, err, order_by, place}
use fndr.Text.{
  Text, codes, text_eq, join, is_empty, trim, trim_start_matches, trim_end_matches,
  split_whitespace, split_on, is_whitespace, is_ascii_alphanumeric, is_ascii_digit, bytes,
  encode_char, str_len,
}
use fndr.Store.{Store, find_record}
use fndr.Store.Reading.{
  ChunkSearchHit, chunk_evidence, record_evidence, fts_terms, fts_query, search_chunks,
}
use fndr.Store.Ledgers.{LedgerDecision, record_tool_call, recent_decisions}
use fndr.Store.Ledgers
use fndr.Mcp.Desk.{
  RecalledDecision, todo_kind, decision_kind, open_target_inner, open_target, recall_inner, recall,
  remember_decision_inner, remember_decision,
}
use fndr.Mcp.Tools.{
  PackedEvidence, audit, source_evidence_inner, source_evidence, pack_hit, pack_hits,
  context_pack_inner, context_pack, is_ok,
}
use fndr.Mcp.Released.{PackSound, context_pack_sound}
use fndr.Mcp.Audited.{source_evidence_audited}
use fndr.Tests.Web.{web}
use fndr.Tests.Flush.{one_chunk}

abbrev found : ChunkSearchHit
found = record {
  chunk_id = codes "c1";
  record_id = codes "r1";
  source = codes "screen";
  captured_at_ms = 1_000;
  snippet = codes "[budget]";
}

-- A full-text index that still lists a chunk that is gone.
abbrev match_all : Store → Text → List ChunkSearchHit
match_all s expression = record found { record_id = codes "gone" } ∷ found ∷ []

program : Unit {0}
unfolding text_eq join is_empty trim trim_start_matches trim_end_matches split_whitespace split_on
    is_whitespace is_ascii_alphanumeric is_ascii_digit bytes encode_char str_len find_record
    order_by place chunk_evidence record_evidence fts_terms fts_query search_chunks record_tool_call
    audit source_evidence_inner source_evidence pack_hit pack_hits context_pack_inner context_pack
program = tt
  where
    one_item :
        (elim (context_pack web match_all one_chunk (codes "budget") (some 2) none 2_000 []).0 [
          | ok o ↦ map (λ (i : PackedEvidence). i.chunk_id) o.items
          | err e ↦ []
        ])
        ≡ codes "c1" ∷ []
    one_item = refl

    over_budget :
        (elim (context_pack web match_all one_chunk (codes "budget") (some 1) none 2_000 []).0 [
          | ok o ↦ o.dropped_for_budget
          | err e ↦ 0
        ])
        ≡ 1
    over_budget = refl

    no_goal : is_ok (context_pack web match_all one_chunk (codes "  ") none none 2_000 []).0 ≡ false
    no_goal = refl

-- A memory without a URL and a bundle identifier, a kind of memory that is not kept, a decision that
-- is remembered and then recalled, and one about a record that there is not.
desk : Unit {0}
unfolding program open_target_inner open_target recall_inner recall remember_decision_inner
    remember_decision recent_decisions Ledgers.remember_decision
desk = tt
  where
    closed :
        (elim (open_target one_chunk (codes "r1") 2_000 []).0 [ ok o ↦ o.kind | err e ↦ [] ])
        ≡ codes "unavailable"
    closed = refl

    refused : is_ok (recall [] todo_kind none none 2_000 []).0 ≡ false
    refused = refl

    kept :
        (elim (recall
          (remember_decision
            (λ e. codes "error")
            one_chunk
            []
            (codes "ship")
            (some (codes "r1"))
            none
            2_000
            []).0
          decision_kind
          none
          none
          3_000
          []).0 [ ok o ↦ map (λ (d : RecalledDecision). d.statement) o.decisions | err e ↦ [] ])
        ≡ codes "ship" ∷ []
    kept = refl

    unknown :
        is_ok
          (remember_decision
            (λ e. codes "error")
            one_chunk
            []
            (codes "ship")
            (some (codes "r2"))
            none
            2_000
            []).1.0
        ≡ false
    unknown = refl

context_pack_sound_example :
    PackSound one_chunk
      (some 2)
      ((context_pack web match_all one_chunk (codes "budget") (some 2) none 2_000 []).0)
context_pack_sound_example =
    context_pack_sound web match_all one_chunk (codes "budget") (some 2) none 2_000 []

source_evidence_audited_example :
    (some true ≡ some true)
    × ((source_evidence one_chunk (codes "r1") (some true) 2_000 []).1
        ≡ record {
          id = 1;
          at_ms = 2_000;
          tool = codes "fndr.source_evidence";
          outcome = codes "ok";
          raw_released = true;
        }
          ∷ [])
unfolding program
source_evidence_audited_example =
    source_evidence_audited one_chunk (codes "r1") (some true) 2_000 [] refl

abbrev earlier : LedgerDecision
earlier = record { id = 1; decided_at_ms = 1_000; statement = codes "wait"; record_id = none }
