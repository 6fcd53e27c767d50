-- ===== src/Mcp/Remembered.antt =====
-- crates/fndr-mcp/src/server.rs: what is remembered is recalled.
use fndr.Prelude.{ℕ, ◌+◌, ◌≤◌, List, Option, length, All}
use fndr.Text.{Text}
use fndr.Store.{Store}
use fndr.Store.Ledgers.{LedgerDecision}
use fndr.Store.Ledgers

-- A ledger whose ids are those given so far, and whose entries are of `at` at the latest.
abbrev pub Before : ℕ → List LedgerDecision → Type 0
Before at ds = All (λ (d : LedgerDecision). (d.id ≤ length ds) × (d.decided_at_ms ≤ at)) ds

-- The entry of a decision.
abbrev pub entry : List LedgerDecision → ℕ → Text → Option Text → LedgerDecision
entry ds at statement record_id = record {
  id = length ds + 1;
  decided_at_ms = at;
  statement = statement;
  record_id = record_id;
}
