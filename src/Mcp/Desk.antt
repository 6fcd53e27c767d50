-- ===== src/Mcp/Desk.antt =====
-- crates/fndr-mcp/src/server.rs: the tools that reopen a memory, and that read and write the ledgers.
-- Each answers with the ledgers it leaves, the row of the audit log among them.
use fndr.Prelude.{
  ℕ, Bool, false, List, [], ◌++◌, map, Option, none, some, Result, ok, err, if◌then◌else◌,
  unwrap_or, min,
}
use fndr.Text.{Text, codes, trim, is_empty}
use fndr.Store.{Store, StoreError}
use fndr.Store.Reading.{RecordEvidence, record_evidence}
use fndr.Store.Ledgers.{
  AuditEntry, LedgerDecision, ResultFeedback, recent_decisions, record_feedback,
}
use fndr.Store.Ledgers
use fndr.Mcp.Tools.{ErrorData, invalid_params, internal_error, audit}

pub record OpenTargetOutput : Type 0 where
  pub record_id : Text
  pub kind : Text
  pub url : Option Text
  pub bundle_id : Option Text
  pub app_name : Text
  pub window_title : Text
  pub reason : Option Text

-- `(kind, url, bundle_id, reason)`.
abbrev pub target : Option Text → Option Text → Text × Option Text × Option Text × Option Text
target (some url) bundle_id = (codes "url", some url, bundle_id, none)
target none (some bundle_id) = (codes "app", none, some bundle_id, none)
target none none = (
  codes "unavailable",
  none,
  none,
  some (codes "this memory retained no URL and no bundle identifier"),
)

abbrev pub target_out : RecordEvidence → OpenTargetOutput
target_out evidence =
    let (kind, url, bundle_id, reason) = target evidence.url evidence.bundle_id in
    record {
      record_id = evidence.record_id;
      kind = kind;
      url = url;
      bundle_id = bundle_id;
      app_name = evidence.app_name;
      window_title = evidence.window_title;
      reason = reason;
    }

unfoldable pub open_target_inner : Store → Text → Result OpenTargetOutput ErrorData
open_target_inner s record_id = elim (record_evidence s record_id) [
  | none ↦ err (invalid_params (codes "unknown record_id"))
  | some evidence ↦ ok (target_out evidence)
]

unfoldable pub open_target :
    Store → Text → ℕ → List AuditEntry → Result OpenTargetOutput ErrorData × List AuditEntry
unfolding open_target_inner audit
open_target s record_id now_ms rows =
    audit (codes "fndr.open_target") false (open_target_inner s record_id) now_ms rows

pub data RecallKind : Type 0 where
  decision_kind error_kind blocker_kind todo_kind : RecallKind

pub record RecalledDecision : Type 0 where
  pub id : ℕ
  pub decided_at_ms : ℕ
  pub statement : Text
  pub record_id : Option Text

pub record RecallOutput : Type 0 where
  pub kind : Text
  pub decisions : List RecalledDecision

abbrev pub unbacked : RecallKind → Option Text
unbacked decision_kind = none
unbacked error_kind = some (codes "error")
unbacked blocker_kind = some (codes "blocker")
unbacked todo_kind = some (codes "todo")

abbrev pub recalled : LedgerDecision → RecalledDecision
recalled d = record {
  id = d.id;
  decided_at_ms = d.decided_at_ms;
  statement = d.statement;
  record_id = d.record_id;
}

unfoldable pub recall_inner :
    List LedgerDecision → RecallKind → Option ℕ → Option ℕ → Result RecallOutput ErrorData
recall_inner decisions kind since_ms limit = elim (unbacked kind) [
  | some word ↦ err (
      invalid_params (
        codes "recall kind '"
        ++ (word ++ codes "' has no data model yet; only 'decision' is recorded")))
  | none ↦ ok (record {
    kind = codes "decision";
    decisions = map recalled (recent_decisions decisions since_ms (min (unwrap_or 20 limit) 200));
  })
]

unfoldable pub recall :
    List LedgerDecision
    → RecallKind
    → Option ℕ
    → Option ℕ
    → ℕ
    → List AuditEntry
    → Result RecallOutput ErrorData × List AuditEntry
unfolding recall_inner audit
recall decisions kind since_ms limit now_ms rows =
    audit (codes "fndr.recall") false (recall_inner decisions kind since_ms limit) now_ms rows

pub record RememberDecisionOutput : Type 0 where
  pub id : ℕ
  pub decided_at_ms : ℕ

-- The ledger and the answer after an insertion; `describe` prints the error of the store.
abbrev pub after_insert :
    {R O : Type 0}
    → (StoreError → Text)
    → (ℕ → O)
    → List R
    → Result (List R × ℕ) StoreError
    → List R × Result O ErrorData
after_insert describe answer rows (err e) = (rows, err (internal_error (describe e)))
after_insert describe answer rows (ok (after, id)) = (after, ok (answer id))

unfoldable pub remember_decision_inner :
    (StoreError → Text)
    → Store
    → List LedgerDecision
    → Text
    → Option Text
    → Option ℕ
    → ℕ
    → List LedgerDecision × Result RememberDecisionOutput ErrorData
remember_decision_inner describe s decisions statement record_id decided_at_ms now_ms =
    let at = unwrap_or now_ms decided_at_ms in
    if is_empty (trim statement)
    then (decisions, err (invalid_params (codes "statement must not be empty")))
    else after_insert describe (λ id. record { id = id; decided_at_ms = at }) decisions
        (Ledgers.remember_decision s decisions at statement record_id)

unfoldable pub remember_decision :
    (StoreError → Text)
    → Store
    → List LedgerDecision
    → Text
    → Option Text
    → Option ℕ
    → ℕ
    → List AuditEntry
    → List LedgerDecision × (Result RememberDecisionOutput ErrorData × List AuditEntry)
unfolding remember_decision_inner audit
remember_decision describe s decisions statement record_id decided_at_ms now_ms rows =
    let (after, answer) =
      remember_decision_inner describe s decisions statement record_id decided_at_ms now_ms in
    (after, audit (codes "fndr.remember_decision") false answer now_ms rows)

pub data Rating : Type 0 where
  helpful unhelpful irrelevant : Rating

abbrev pub as_str : Rating → Text
as_str helpful = codes "helpful"
as_str unhelpful = codes "unhelpful"
as_str irrelevant = codes "irrelevant"

pub record FeedbackOutput : Type 0 where
  pub id : ℕ
  pub rating : Text
  pub ranking_changed : Bool

unfoldable pub feedback_inner :
    (StoreError → Text)
    → Store
    → List ResultFeedback
    → Rating
    → Text
    → Option Text
    → Option Text
    → Option Text
    → ℕ
    → List ResultFeedback × Result FeedbackOutput ErrorData
feedback_inner describe s given rating query record_id chunk_id note now_ms =
    if is_empty (trim query)
    then (
      given,
      err (
          invalid_params (
            codes
              "query must not be empty: feedback without the query it was given for cannot be replayed")),
    )
    else after_insert describe
        (λ id. record { id = id; rating = as_str rating; ranking_changed = false }) given
        (record_feedback s given now_ms record_id chunk_id query (as_str rating)
          (unwrap_or [] note))

unfoldable pub feedback :
    (StoreError → Text)
    → Store
    → List ResultFeedback
    → Rating
    → Text
    → Option Text
    → Option Text
    → Option Text
    → ℕ
    → List AuditEntry
    → List ResultFeedback × (Result FeedbackOutput ErrorData × List AuditEntry)
unfolding feedback_inner audit
feedback describe s given rating query record_id chunk_id note now_ms rows =
    let (after, answer) =
      feedback_inner describe s given rating query record_id chunk_id note now_ms in
    (after, audit (codes "fndr.feedback") false answer now_ms rows)
