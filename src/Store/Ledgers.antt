-- ===== src/Store/Ledgers.antt =====
-- crates/fndr-store/src/store.rs: the tables that are only appended to: the log of tool calls, the
-- decisions and the feedback. Row ids count up from 1 and are not used again. The order of writing is
-- the order of the lists; an `i64` of time is one that is not negative.
use fndr.Prelude.{
  ℕ, ◌+◌, Bool, ◌&&◌, ◌||◌, List, [], ◌∷◌, ◌++◌, Option, ltb, leb, ◌==◌, take, keep, length,
  order_by, unwrap_or, true, not, none, some, Result, ok, err, if◌then◌else◌,
}
use fndr.Text.{Text}
use fndr.Store.{Store, StoreError, constraint, has_record}

pub record AuditEntry : Type 0 where
  pub id : ℕ
  pub at_ms : ℕ
  pub tool : Text
  pub outcome : Text
  pub raw_released : Bool

pub record LedgerDecision : Type 0 where
  pub id : ℕ
  pub decided_at_ms : ℕ
  pub statement : Text
  pub record_id : Option Text

pub record ResultFeedback : Type 0 where
  pub id : ℕ
  pub at_ms : ℕ
  pub record_id : Option Text
  pub chunk_id : Option Text
  pub query : Text
  pub rating : Text
  pub note : Text

-- `ORDER BY at DESC, id DESC` for rows with the given time and id.
abbrev pub newest_row : {A : Type 0} → (A → ℕ) → (A → ℕ) → A → A → Bool
newest_row at id a b = ltb (at b) (at a) || (at a == at b && leb (id b) (id a))

unfoldable pub record_tool_call : List AuditEntry → ℕ → Text → Text → Bool → List AuditEntry
record_tool_call rows at_ms tool outcome raw_released =
    rows
    ++ (record {
      id = length rows + 1;
      at_ms = at_ms;
      tool = tool;
      outcome = outcome;
      raw_released = raw_released;
    }
        ∷ [])

unfoldable pub recent_tool_calls : List AuditEntry → ℕ → List AuditEntry
recent_tool_calls rows limit =
    take limit (order_by (newest_row (λ (e : AuditEntry). e.at_ms) (λ e. e.id)) rows)

-- `record_id TEXT REFERENCES memory_records (id)`.
abbrev pub refers : Store → Option Text → Bool
refers s none = true
refers s (some id) = has_record id s.records

unfoldable pub remember_decision :
    Store
    → List LedgerDecision
    → ℕ
    → Text
    → Option Text
    → Result (List LedgerDecision × ℕ) StoreError
remember_decision s rows decided_at_ms statement record_id =
    if not (refers s record_id)
    then err constraint
    else ok (
      rows
          ++ (record {
            id = length rows + 1;
            decided_at_ms = decided_at_ms;
            statement = statement;
            record_id = record_id;
          }
              ∷ []),
      length rows + 1,
    )

unfoldable pub recent_decisions : List LedgerDecision → Option ℕ → ℕ → List LedgerDecision
recent_decisions rows since_ms limit = take limit (
    order_by (newest_row (λ (e : LedgerDecision). e.decided_at_ms) (λ e. e.id))
      (keep (λ (e : LedgerDecision). leb (unwrap_or 0 since_ms) e.decided_at_ms) rows))

unfoldable pub record_feedback :
    Store
    → List ResultFeedback
    → ℕ
    → Option Text
    → Option Text
    → Text
    → Text
    → Text
    → Result (List ResultFeedback × ℕ) StoreError
record_feedback s rows at_ms record_id chunk_id query rating note =
    if not (refers s record_id)
    then err constraint
    else ok (
      rows
          ++ (record {
            id = length rows + 1;
            at_ms = at_ms;
            record_id = record_id;
            chunk_id = chunk_id;
            query = query;
            rating = rating;
            note = note;
          }
              ∷ []),
      length rows + 1,
    )

unfoldable pub recent_feedback : List ResultFeedback → ℕ → List ResultFeedback
recent_feedback rows limit =
    take limit (order_by (newest_row (λ (e : ResultFeedback). e.at_ms) (λ e. e.id)) rows)
