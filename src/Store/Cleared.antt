-- ===== src/Store/Cleared.antt =====
-- crates/fndr-store/src/deletion.rs: what a deletion leaves.
use fndr.Prelude.{
  ℕ, ◌≡◌, refl, sym, ◌∙◌, Bool, true, false, not, List, [], ◌∷◌, Result, ok, err, arith, keep, All,
  All-keep, All-weaken, ◌⊎◌, Has, Bool-cases, inl, inr, if-holds,
}
use fndr.Text.{Text, text_eq, one_of}
use fndr.Platform.{Platform}
use fndr.Store.{Store, StoreError, NewRecord, ChunkRow, delete_record, delete_records}
use fndr.Store.Deletion.{
  DeleteScope, record_ids_for_delete, DeleteIndex, DeletionError, DeletionReport, delete_rows,
  after_index, after_resolve, delete_everywhere,
}
use fndr.Store.Deleted.{targeted, Resolves, resolves}

Has-keep :
    {A : Type 0} (p : A → Bool) (x : A) (xs : List A) → Has x xs → p x ≡ true → Has x (keep p xs)
Has-keep p x [] m h = absurd m
Has-keep p x (y ∷ ys) (inl e) h = rw (e, h) (inl refl)
Has-keep p x (y ∷ ys) (inr m) h =
    if-holds (Has x) (p y) (inr (Has-keep p x ys m h)) (Has-keep p x ys m h)

All-self : {A : Type 0} (P : A → Type 0) (xs : List A) → ((x : A) → Has x xs → P x) → All P xs
All-self P [] f = tt
All-self P (x ∷ xs) f = (f x (inl refl), All-self P xs (λ y m. f y (inr m)))

-- A deletion keeps what holds of all rows, removes what it names, and keeps the rest.
keeps_rows :
    (P : NewRecord → Type 0) (Q : ChunkRow → Type 0) (targets : List Text) (s : Store)
    → All P s.records
    → All Q s.chunks
    → All P (delete_records s targets).0.records × All Q (delete_records s targets).0.chunks
unfolding delete_records
keeps_rows P Q [] s h k = (h, k)
keeps_rows P Q (id ∷ rest) s h k =
    keeps_rows P Q rest (delete_record s id)
      (All-keep P (λ (r : NewRecord). not (text_eq r.id id)) s.records h)
      (All-keep Q (λ (c : ChunkRow). not (text_eq c.record_id id)) s.chunks k)

keep-not :
    {A : Type 0} (p : A → Bool) (xs : List A) → All (λ x. p x ≡ false) (keep (λ x. not (p x)) xs)
keep-not p [] = tt
keep-not p (x ∷ xs) = elim (Bool-cases (p x)) [
  | inl e ↦ rw e (keep-not p xs)
  | inr e ↦ rw e (e, keep-not p xs)
]

not_listed :
    {A : Type 0} (f : A → Text) (id : Text) (rest : List Text) (xs : List A)
    → All (λ x. text_eq (f x) id ≡ false) xs
    → All (λ x. one_of (f x) rest ≡ false) xs
    → All (λ x. one_of (f x) (id ∷ rest) ≡ false) xs
not_listed f id rest [] h k = tt
not_listed f id rest (x ∷ xs) h k = ((rw (h.0, k.0) refl), not_listed f id rest xs h.1 k.1)

removes_rows :
    (targets : List Text) (s : Store)
    → All (λ (r : NewRecord). one_of r.id targets ≡ false) (delete_records s targets).0.records
      × All
          (λ (c : ChunkRow). one_of c.record_id targets ≡ false)
          (delete_records s targets).0.chunks
unfolding delete_records
removes_rows [] s = (All-self _ s.records (λ x m. refl), All-self _ s.chunks (λ x m. refl))
removes_rows (id ∷ rest) s =
    let (a, b) = removes_rows rest (delete_record s id) in
    let (c, d) =
      keeps_rows (λ r. text_eq r.id id ≡ false) (λ c. text_eq c.record_id id ≡ false) rest
        (delete_record s id) (keep-not (λ (r : NewRecord). text_eq r.id id) s.records)
        (keep-not (λ (c : ChunkRow). text_eq c.record_id id) s.chunks) in
    (
      not_listed (λ (r : NewRecord). r.id) id rest _ c a,
      not_listed (λ (x : ChunkRow). x.record_id) id rest _ d b,
    )

spares_rows :
    (targets : List Text) (s : Store)
    → ((r : NewRecord)
        → Has r s.records
        → one_of r.id targets ≡ false
        → Has r (delete_records s targets).0.records)
      × ((c : ChunkRow)
          → Has c s.chunks
          → one_of c.record_id targets ≡ false
          → Has c (delete_records s targets).0.chunks)
unfolding delete_records
spares_rows [] s = (λ r m h. m, λ c m h. m)
spares_rows (id ∷ rest) s =
    let (a, b) = spares_rows rest (delete_record s id) in
    (
      λ r m h.
          a r
            (Has-keep (λ (x : NewRecord). not (text_eq x.id id)) r s.records m (ground (arith, h)))
            (ground (arith, h)),
      λ c m h.
          b c
            (Has-keep (λ (x : ChunkRow). not (text_eq x.record_id id)) c s.chunks m
              (ground (arith, h)))
            (ground (arith, h)),
    )

-- A store without the records of a scope and their chunks, and with all others.
abbrev pub Cleared : (Text → Bool) → Store → Store → Type 0
Cleared gone before after =
    All (λ (r : NewRecord). gone r.id ≡ false) after.records
    × All (λ (c : ChunkRow). gone c.record_id ≡ false) after.chunks
    × All (λ (r : NewRecord). (gone r.id ≡ true) ⊎ Has r after.records) before.records
    × All (λ (c : ChunkRow). (gone c.record_id ≡ true) ⊎ Has c after.chunks) before.chunks

delete_records-Cleared :
    (gone : Text → Bool) (targets : List Text) (s : Store)
    → ((t : Text) → one_of t targets ≡ gone t)
    → Cleared gone s (delete_records s targets).0
delete_records-Cleared gone targets s f =
    let (a, b) = removes_rows targets s in
    let (c, d) = spares_rows targets s in
    (
      All-weaken (λ (r : NewRecord) e. sym (f r.id) ∙ e) _ a,
      All-weaken (λ (r : ChunkRow) e. sym (f r.record_id) ∙ e) _ b,
      All-self _ s.records (λ r m. elim (Bool-cases (gone r.id)) [
        | inl e ↦ inl e
        | inr e ↦ inr (c r m (f r.id ∙ e))
      ]),
      All-self _ s.chunks (λ r m. elim (Bool-cases (gone r.record_id)) [
        | inl e ↦ inl e
        | inr e ↦ inr (d r m (f r.record_id ∙ e))
      ]),
    )

module _ {W E : Type 0} (ix : DeleteIndex W E) where
  -- A deletion that answers a report has cleared the store; one that fails has left it as it was.
  abbrev pub Outcome :
      (Text → Bool) → Store → Store × W × Result DeletionReport (DeletionError E) → Type 0
  Outcome gone s (after, w, ok report) = Cleared gone s after
  Outcome gone s (after, w, err e) = after ≡ s

  index-Outcome :
      (gone : Text → Bool) (s : Store) (targets : List Text) (o : Result ℕ E × W)
      → ((t : Text) → one_of t targets ≡ gone t)
      → Outcome gone s (after_index ix s targets o)
  index-Outcome gone s targets (err e, w) f = refl
  index-Outcome gone s targets (ok n, w) f = delete_records-Cleared gone targets s f

  resolve-Outcome :
      (gone : Text → Bool) (s : Store) (w : W) (o : Result (List Text) StoreError)
      → Resolves gone o
      → Outcome gone s (after_resolve ix s w o)
  resolve-Outcome gone s w (err e) f = refl
  resolve-Outcome gone s w (ok targets) f =
      index-Outcome gone s targets (delete_rows ix targets w) f

  -- Whatever the index answers, a deletion that fails leaves SQLite as it was, and one that answers
  -- a report leaves no record of the scope and no chunk of one, and every other record and chunk.
  pub delete_everywhere-Outcome :
      {Url : Type 0} (pf : Platform Url) (s : Store) (w : W) (scope : DeleteScope)
      → Outcome (targeted pf scope s.records) s (delete_everywhere ix pf s w scope)
  unfolding delete_everywhere
  delete_everywhere-Outcome pf s w scope =
      resolve-Outcome (targeted pf scope s.records) s w (record_ids_for_delete pf s scope)
        (resolves pf s scope)
