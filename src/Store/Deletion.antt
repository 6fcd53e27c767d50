-- ===== src/Store/Deletion.antt =====
-- crates/fndr-store/src/deletion.rs, and what it uses of store.rs and lance_writer.rs: the owner's
-- deletion, from the index first and then from SQLite. SQLite orders ids by their code points.
use fndr.Prelude.{
  ℕ, Bool, true, false, ◌&&◌, ◌||◌, List, [], ◌∷◌, ◌++◌, map, Option, none, some, Result, ok, err,
  if◌then◌else◌, ltb, leb, ◌==◌, keep, order_by,
}
use fndr.Text.{Text, codes, text_eq, join}
use fndr.Platform.{Platform}
use fndr.Privacy.Blocklist.{SanitizedUrl, normalize_domain, url_matches_domain_suffix}
use fndr.Store.{Store, StoreError, invalid_delete_scope, NewRecord, has_record, delete_records}

pub data DeleteScope : Type 0 where
  record_ids : List Text → DeleteScope
  time_range : ℕ → ℕ → DeleteScope
  domain : Text → DeleteScope
  all : DeleteScope

unfoldable pub text_le : Text → Text → Bool
text_le [] t = true
text_le (c ∷ s) [] = false
text_le (c ∷ s) (d ∷ t) = ltb c d || (c == d && text_le s t)

-- `dedup` of a sorted list.
abbrev pub drop_equal : Text → List Text → List Text
drop_equal t [] = []
drop_equal t (u ∷ us) = if text_eq t u then us else u ∷ us

unfoldable pub dedup : List Text → List Text
dedup [] = []
dedup (t ∷ ts) = t ∷ drop_equal t (dedup ts)

abbrev pub ids_of : List NewRecord → List Text
ids_of = map (λ (r : NewRecord). r.id)

abbrev pub in_range : ℕ → ℕ → NewRecord → Bool
in_range start_ms end_ms r = leb start_ms r.captured_at_ms && leb r.captured_at_ms end_ms

module _ {Url : Type 0} (pf : Platform Url) where
  abbrev pub url_under : Text → Option SanitizedUrl → Bool
  url_under d none = false
  url_under d (some url) = url_matches_domain_suffix pf url.text d

  unfoldable pub record_ids_for_delete : Store → DeleteScope → Result (List Text) StoreError
  record_ids_for_delete s (record_ids wanted) =
      ok (dedup (order_by text_le (keep (λ id. has_record id s.records) wanted)))
  record_ids_for_delete s (time_range start_ms end_ms) =
      if ltb end_ms start_ms
      then err (invalid_delete_scope (codes "time range start must not be after its end"))
      else ok (order_by text_le (ids_of (keep (in_range start_ms end_ms) s.records)))
  record_ids_for_delete s (domain d) = elim (normalize_domain pf d) [
    | none ↦ err (invalid_delete_scope (codes "domain must be a valid host or HTTP(S) URL"))
    | some host ↦
        ok (order_by text_le (ids_of (keep (λ (r : NewRecord). url_under d r.url) s.records)))
  ]
  record_ids_for_delete s all = ok (order_by text_le (ids_of s.records))

-- `id.replace('\'', "''")`, for each character.
abbrev pub escape_quotes : Text → Text
escape_quotes [] = []
escape_quotes (c ∷ s) =
    let rest = escape_quotes s in if c == b'\'' then b'\'' ∷ b'\'' ∷ rest else c ∷ rest

abbrev pub quoted : Text → Text
quoted id = b'\'' ∷ (escape_quotes id ++ (b'\'' ∷ []))

-- The predicate that Lance is given.
unfoldable pub delete_predicate : List Text → Text
delete_predicate targets =
    codes "record_id IN (" ++ (join (codes ", ") (map quoted targets) ++ codes ")")

-- Lance: the table opened, `none` where there is none, and its rows deleted by a predicate.
pub record DeleteIndex (W E : Type 0) : Type 0 where
  pub open_table : W → Result Bool E × W
  pub delete : Text → W → Result ℕ E × W

pub data DeletionError (E : Type 0) : Type 0 where
  store_error : StoreError → DeletionError E
  index_error : E → DeletionError E

pub record DeletionReport : Type 0 where
  pub records : ℕ
  pub indexed_chunks : ℕ

module _ {W E : Type 0} (ix : DeleteIndex W E) where
  abbrev pub after_table : List Text → Result Bool E × W → Result ℕ E × W
  after_table targets (err e, w) = (err e, w)
  after_table targets (ok false, w) = (ok 0, w)
  after_table targets (ok true, w) = ix.delete (delete_predicate targets) w

  -- `LanceWriter::delete_records`.
  unfoldable pub delete_rows : List Text → W → Result ℕ E × W
  delete_rows [] w = (ok 0, w)
  delete_rows (id ∷ rest) w = after_table (id ∷ rest) (ix.open_table w)

  abbrev pub Deleted : Type 0
  Deleted = Store × W × Result DeletionReport (DeletionError E)

  abbrev pub after_index : Store → List Text → Result ℕ E × W → Deleted
  after_index s targets (err e, w) = (s, w, err (index_error e))
  after_index s targets (ok indexed, w) =
      let (after, records) = delete_records s targets in
      (after, w, ok (record { records = records; indexed_chunks = indexed }))

  abbrev pub after_resolve : Store → W → Result (List Text) StoreError → Deleted
  after_resolve s w (err e) = (s, w, err (store_error e))
  after_resolve s w (ok targets) = after_index s targets (delete_rows targets w)

  unfoldable pub delete_everywhere :
      {Url : Type 0} → Platform Url → Store → W → DeleteScope → Deleted
  unfolding delete_rows
  delete_everywhere pf s w scope = after_resolve s w (record_ids_for_delete pf s scope)
