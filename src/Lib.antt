-- ===== src/Lib.antt =====
-- FNDR, a local memory engine that captures the screen, cleans what it reads and stores it. These
-- files model its Rust crates from the decision to capture up to the row in SQLite, and its local
-- server with the check in front of it.
--
-- How the parts interact. A tick of the capture pipeline reads the foreground metadata, asks the
-- privacy gate, classifies the surface, grabs a frame, drops duplicates, has the text recognised and
-- hands it to the sink. The sink asks the privacy rules again, redacts, and writes or merges the text
-- into the store. A worker thread ticks in the cadence that the input asks for and drains the store
-- into the index when it ends; the owner searches and deletes. A separate server answers queries
-- behind a check of its own.
--
-- - Prelude, Text: the standard library's lists, options, results and strings. A text is the list
--   of its code points; `bytes` is its UTF-8.
-- - Platform: what is not in this repository: Unicode's tables and the `url` crate, as parameters.
-- - Privacy.Blocklist: crates/fndr-privacy/src/blocklist.rs, with `normalize_app`, `blocks_app`,
--   `host_from_url`, `blocks_url` and `sanitize_url_for_storage` under their own names.
-- - Privacy.SafetyGate: crates/fndr-privacy/src/safety_gate.rs. `Policy` is
--   `SensitiveContextPolicy`; `redact_lines` is the closure of `redact_secret_lines_matching`.
-- - Capture.Sampling, Capture.Admission, Capture.Dedup: the files of these names in
--   crates/fndr-capture/src. An outer `Option` in `from_native_rgba` is a panic. The hash map of the
--   semantic window is a function.
-- - Capture.Pipeline: crates/fndr-capture/src/pipeline.rs. The boundary traits are the record
--   `Boundaries` of functions over a state of the outside world; the early returns of
--   `run_tick_inner` are the functions `after_context` to `store`.
-- - Store: crates/fndr-store/src/store.rs, the operations on records and chunks that the write path
--   and the flush use, as two tables in the order of their row ids.
-- - Memory.Anchor, Memory.Session, Memory.Score, Memory.Story: crates/fndr-memory/src/continuity.rs.
-- - Memory.WritePath: crates/fndr-memory/src/write_path.rs.
-- - Shell.Adapters: crates/fndr-shell/src/capture_adapters.rs, the gate and the sink.
-- - Store.Flush, Shell.Scheduler, Shell.Tick: `flush_once` of crates/fndr-store/src/lance_writer.rs,
--   and the flush of a tick, `flush_on_shutdown` and the whole `tick` of
--   crates/fndr-shell/src/capture_scheduler.rs. The embedder and Lance are the record `Derived`.
-- - Mcp.Auth, Mcp.Rate: crates/fndr-mcp/src/auth.rs. Mcp.Tools, Mcp.Search and Mcp.Desk: tools of
--   crates/fndr-mcp/src/server.rs, each with its row in the audit log.
-- - TextSignal: crates/fndr-textsignal/src. App is app.rs; Lines, Noise, Clean, Snippet and Salience
--   are cleanup.rs, each loop with its variables as arguments.
-- - Ocr: crates/fndr-ocr/src/vision.rs, what is done with the recognised lines. The variables of the
--   two loops are `NormalizeState` and `PreprocessState`.
-- - Store.Deletion: crates/fndr-store/src/deletion.rs with `record_ids_for_delete` of store.rs and
--   `delete_records` of lance_writer.rs. Store.Reading and Store.Ledgers: what store.rs reads back,
--   and its append-only tables.
-- - Retrieval: crates/fndr-retrieval/src/merged_search.rs and lib.rs, and Retrieval.Search:
--   crates/fndr-shell/src/search.rs. SQLite's full-text index, the embedder and Lance's rows are
--   parameters.
-- - Inference.ModelWorker: crates/fndr-inference/src/model_worker.rs. The heap is a list from which a
--   greatest job is taken.
-- - Shell.Worker: crates/fndr-shell/src/capture_worker.rs. What the clock, the input and the channel
--   answer is a list of turns, one for each iteration of `run_capture_loop`.
-- - Shell.Lifecycle: crates/fndr-shell/src/capture_lifecycle.rs. The dispatcher's turn is two steps,
--   `dispatch_read` and `dispatch_publish`.
-- - Types.Lifecycle: crates/fndr-types/src/lifecycle.rs.
-- - Tests: runs of the definitions, and each result at a concrete input.
--
-- Bounds. Numbers are natural numbers with the wrap-around or the check of the source written out:
-- `usize` products are checked, the counters and the rate window wrap at 2 ^ 64, and times are the
-- non-negative ones. Every loop is recursion over a list or over a constant number of rounds, but for
-- `flush_on_shutdown`, which takes as fuel one round more than there are pending chunks; the twenty
-- digits of `print_u64` are enough for a `u64`.
--
-- Not modelled: calls of macOS, Vision, Lance, the language models and Tauri; failures of the disk;
-- threads, but for the orders of events named above; the store's timeline and change summaries, the
-- rebuild of the index, and the other tools of the server. `f32` arithmetic and hashes are parameters.
pub mod Prelude
pub mod Text
pub mod TextSignal
pub mod Platform
pub mod Privacy
pub mod Capture
pub mod Store
pub mod Memory
pub mod Mcp
pub mod Inference
pub mod Retrieval
pub mod Ocr
pub mod Shell
pub mod Types
pub mod Tests
