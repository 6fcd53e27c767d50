-- ===== src/Mcp/Released.antt =====
-- crates/fndr-mcp/src/server.rs: what a context pack hands out.
use fndr.Prelude.{
  ℕ, ◌+◌, ◌*◌, ◌≤◌, ◌≡◌, refl, ◌∙◌, subst, Bool, true, ◌&&◌, List, [], ◌∷◌, ◌++◌, Option, none,
  some, Result, ok, err, arith, ltb, leb, unwrap_or, min, any, keep, order_by, map_option, All,
  All-append, All-order_by, All-map, All-weaken, All-keep_test, if-holds, if-cases,
}
use fndr.Text.{Text, text_eq, trim, is_empty, str_len}
use fndr.Text.Search.{text_eq_refl, eq_of_text_eq}
use fndr.Platform.{Platform}
use fndr.Store.{Store, NewRecord, ChunkRow, has_record, find_record}
use fndr.Store.Reading.{
  ChunkEvidence, RecordEvidence, ChunkSearchHit, record_evidence, evidence_of, chunk_evidence,
  search_chunks,
}
use fndr.Store.Ledgers.{AuditEntry}
use fndr.Mcp.Tools.{
  ErrorData, audit, PackedEvidence, ContextPackOutput, estimate, chunk_of, PackState, packed,
  pack_chunk, pack_hit, pack_hits, context_pack_inner, context_pack,
}

abbrev OnSome : {A : Type 0} → (A → Type 0) → Option A → Type 0
OnSome P none = Unit
OnSome P (some a) = P a

OnSome-elim :
    {A B : Type 0} (P : A → Type 0) (R : B → Type 0) (z : B) (k : A → B) (o : Option A)
    → OnSome P o
    → R z
    → ((a : A) → P a → R (k a))
    → R (elim o [ none ↦ z | some a ↦ k a ])
OnSome-elim P R z k none h r f = r
OnSome-elim P R z k (some a) h r f = f a h

OnSome-map :
    {A B : Type 0} (P : A → Type 0) (Q : B → Type 0) (f : A → B) (o : Option A)
    → OnSome P o
    → ((a : A) → P a → Q (f a))
    → OnSome Q (map_option f o)
OnSome-map P Q f none h g = tt
OnSome-map P Q f (some a) h g = g a h

OnSome-weaken :
    {A : Type 0} {P Q : A → Type 0}
    → ((a : A) → P a → Q a)
    → (o : Option A) → OnSome P o
    → OnSome Q o
OnSome-weaken f none h = tt
OnSome-weaken f (some a) h = f a h

-- The store has a chunk with this id and text, under this record.
abbrev pub has_chunk : Store → Text → Text → Text → Bool
has_chunk s record_id chunk_id text =
    any
      (λ (c : ChunkRow).
        text_eq c.record_id record_id && (text_eq c.id chunk_id && text_eq c.text text))
      s.chunks

chunks-Held :
    (cs : List ChunkRow)
    → All
        (λ (c : ChunkRow).
          any
            (λ (d : ChunkRow).
              text_eq d.record_id c.record_id && (text_eq d.id c.id && text_eq d.text c.text))
            cs
          ≡ true)
        cs
chunks-Held [] = tt
chunks-Held (c ∷ cs) = (
  rw (text_eq_refl c.record_id) (rw (text_eq_refl c.id) (rw (text_eq_refl c.text) refl)),
  All-weaken (λ d h. rw h (ground arith)) cs (chunks-Held cs),
)

chunk_evidence-Held :
    (s : Store) (record_id : Text)
    → All
        (λ (c : ChunkEvidence). has_chunk s record_id c.chunk_id c.text ≡ true)
        (chunk_evidence s record_id)
unfolding chunk_evidence
chunk_evidence-Held s record_id =
    let Held : ChunkRow → Type 0 = λ c. has_chunk s record_id c.id c.text ≡ true in
    let mine = keep (λ (c : ChunkRow). text_eq c.record_id record_id) s.chunks in
    let before : ChunkRow → ChunkRow → Bool = λ c d. leb c.ord d.ord in
    let held : All Held mine =
      All-keep_test (λ (c : ChunkRow). has_chunk s c.record_id c.id c.text ≡ true)
        (λ c. text_eq c.record_id record_id)
        (λ c e h.
          subst (λ id. has_chunk s id c.id c.text ≡ true) (eq_of_text_eq c.record_id record_id e) h)
        s.chunks (chunks-Held s.chunks) in
    All-map Held (λ c. has_chunk s record_id c.chunk_id c.text ≡ true)
      (λ c. record { chunk_id = c.id; ord = c.ord; text = c.text }) (order_by before mine)
      (λ c h. h) (All-order_by Held before mine held)

-- What is read of a record is what the store holds under its id.
abbrev Held : Store → RecordEvidence → Type 0
Held s e =
    (has_record e.record_id s.records ≡ true)
    × All (λ (c : ChunkEvidence). has_chunk s e.record_id c.chunk_id c.text ≡ true) e.chunks

find_record-has :
    (id : Text) (rs : List NewRecord)
    → OnSome (λ (r : NewRecord). has_record id rs ≡ true) (find_record id rs)
unfolding find_record
find_record-has id [] = tt
find_record-has id (r ∷ rs) =
    let P = λ (q : NewRecord). has_record id (r ∷ rs) ≡ true in
    if-cases (OnSome P) (text_eq r.id id) (λ e. rw e refl)
      (λ e. OnSome-weaken (λ q h. rw e h) (find_record id rs) (find_record-has id rs))

record_evidence-Held :
    (s : Store) (record_id : Text) → OnSome (Held s) (record_evidence s record_id)
unfolding record_evidence
record_evidence-Held s record_id =
    OnSome-map (λ (r : NewRecord). has_record record_id s.records ≡ true) (Held s)
      (evidence_of s record_id) (find_record record_id s.records)
      (find_record-has record_id s.records) (λ r h. (h, chunk_evidence-Held s record_id))

chunk_of-Holds :
    (P : ChunkEvidence → Type 0) (chunk_id : Text) (cs : List ChunkEvidence)
    → All P cs
    → OnSome P (chunk_of chunk_id cs)
chunk_of-Holds P chunk_id [] h = tt
chunk_of-Holds P chunk_id (c ∷ cs) h =
    if-holds (OnSome P) (text_eq c.chunk_id chunk_id) h.0 (chunk_of-Holds P chunk_id cs h.1)

-- The bytes of the texts that are packed.
abbrev pub total : List PackedEvidence → ℕ
total [] = 0
total (i ∷ is) = str_len i.text + total is

total-append : (is js : List PackedEvidence) → total (is ++ js) ≡ total is + total js
total-append [] js = omega arith
total-append (i ∷ is) js = rw (total-append is js) (omega arith)

abbrev pub Cited : Store → PackedEvidence → Type 0
Cited s i =
    (has_record i.record_id s.records ≡ true) × (has_chunk s i.record_id i.chunk_id i.text ≡ true)

abbrev Packed : Store → ℕ → PackState → Type 0
Packed s budget_chars p =
    All (Cited s) p.items × (total p.items ≡ p.used_chars) × (p.used_chars ≤ budget_chars)

pack_chunk-Packed :
    (s : Store) (budget_chars : ℕ) (e : RecordEvidence) (c : ChunkEvidence) (p : PackState)
    → has_record e.record_id s.records ≡ true
    → has_chunk s e.record_id c.chunk_id c.text ≡ true
    → Packed s budget_chars p
    → Packed s budget_chars (pack_chunk budget_chars e c p)
pack_chunk-Packed s budget_chars e c p has held (cited, sum, fits) =
    if-cases (Packed s budget_chars) (ltb budget_chars (p.used_chars + str_len c.text))
      (λ t. (cited, sum, fits))
      (λ t. (
        All-append (Cited s) p.items (packed e c ∷ []) cited ((has, held), tt),
        total-append p.items (packed e c ∷ []) ∙ omega (arith, sum),
        ground (arith, t),
      ))

pack_hit-Packed :
    (s : Store) (budget_chars : ℕ) (hit : ChunkSearchHit) (p : PackState)
    → Packed s budget_chars p
    → Packed s budget_chars (pack_hit s budget_chars hit p)
unfolding pack_hit
pack_hit-Packed s budget_chars hit p h =
    OnSome-elim (Held s) (Packed s budget_chars) p
      (λ evidence. elim (chunk_of hit.chunk_id evidence.chunks) [
        | none ↦ p
        | some chunk ↦ pack_chunk budget_chars evidence chunk p
      ])
      (record_evidence s hit.record_id) (record_evidence-Held s hit.record_id) h
      (λ e (has, held).
        OnSome-elim (λ (c : ChunkEvidence). has_chunk s e.record_id c.chunk_id c.text ≡ true)
          (Packed s budget_chars) p (λ chunk. pack_chunk budget_chars e chunk p)
          (chunk_of hit.chunk_id e.chunks) (chunk_of-Holds _ hit.chunk_id e.chunks held) h
          (λ c hc. pack_chunk-Packed s budget_chars e c p has hc h))

pack_hits-Packed :
    (s : Store) (budget_chars : ℕ) (hits : List ChunkSearchHit) (p : PackState)
    → Packed s budget_chars p
    → Packed s budget_chars (pack_hits s budget_chars hits p)
unfolding pack_hits
pack_hits-Packed s budget_chars [] p h = h
pack_hits-Packed s budget_chars (hit ∷ hits) p h =
    pack_hits-Packed s budget_chars hits (pack_hit s budget_chars hit p)
      (pack_hit-Packed s budget_chars hit p h)

-- The answer of a tool, if it is one.
abbrev OnOk : {A : Type 0} → (A → Type 0) → Result A ErrorData → Type 0
OnOk P (ok a) = P a
OnOk P (err e) = Unit

-- What a pack promises: it keeps to its budget, as it counts it and in bytes, and each item is a
-- chunk that the store holds, under a record that it holds.
abbrev pub PackSound : Store → Option ℕ → Result ContextPackOutput ErrorData → Type 0
PackSound s token_budget = OnOk (λ (o : ContextPackOutput).
    All (Cited s) o.items
    × (total o.items ≤ o.token_budget * 4)
    × (o.estimated_tokens_used ≤ o.token_budget)
    × (o.token_budget ≤ 8_000)
    × (o.token_budget ≤ unwrap_or 2_000 token_budget))

estimate-bound : (chars budget : ℕ) → chars ≤ budget * 4 → estimate chars ≤ budget
estimate-bound chars budget h = omega arith

module _ {Url : Type 0} (pf : Platform Url) (match_fts : Store → Text → List ChunkSearchHit) where
  -- Whatever the full-text index answers and the caller asks for, the texts of a pack have together at
  -- most four bytes for each token of its budget, which is at most 8000 and at most what was asked for,
  -- 2000 by default; the tokens that it reports are within the budget; and each item is a chunk of the
  -- store, with its id and its text, under a record of the store.
  pub context_pack_sound :
      (s : Store) (goal : Text) (token_budget max_records : Option ℕ) (now_ms : ℕ)
      (rows : List AuditEntry)
      → PackSound s token_budget
          (context_pack pf match_fts s goal token_budget max_records now_ms rows).0
  unfolding context_pack_inner context_pack audit
  context_pack_sound s goal token_budget max_records now_ms rows =
      let budget = min (unwrap_or 2_000 token_budget) 8_000 in
      let hits = search_chunks pf match_fts s goal (min (unwrap_or 20 max_records) 100) in
      let (cited, sum, fits) =
        pack_hits-Packed s (budget * 4) hits
          (record { items = []; used_chars = 0; dropped_for_budget = 0 }) (tt, refl, omega arith) in
      if-holds (PackSound s token_budget) (is_empty (trim goal)) tt
        (cited, omega (arith, sum, fits), estimate-bound _ _ fits, omega arith, omega arith)
