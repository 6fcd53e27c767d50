-- ===== src/Store/Deleted.antt =====
-- crates/fndr-store/src/store.rs: which ids a deletion is resolved to.
use fndr.Prelude.{
  ◌≡◌, refl, sym, ◌∙◌, ap, Bool, true, ◌&&◌, ◌||◌, List, [], ◌∷◌, Option, none, some, Result, ok,
  err, arith, ltb, any, keep, order_by, place, Bool-cases, inl, inr, if-cases, if-holds,
}
use fndr.Text.{Text, codes, text_eq, one_of}
use fndr.Text.Search.{text_eq_refl, eq_of_text_eq}
use fndr.Platform.{Platform}
use fndr.Privacy.Blocklist.{normalize_domain}
use fndr.Store.{Store, StoreError, invalid_delete_scope, NewRecord, has_record}
use fndr.Store.Deletion.{
  DeleteScope, record_ids, time_range, domain, all, text_le, drop_equal, dedup, ids_of, in_range,
  url_under, record_ids_for_delete,
}

any-place :
    {A : Type 0} (p : A → Bool) (before : A → A → Bool) (x : A) (ys : List A)
    → any p (place before x ys) ≡ (p x || any p ys)
unfolding place
any-place p before x [] = refl
any-place p before x (y ∷ ys) = ground (arith, any-place p before x ys)

any-order_by :
    {A : Type 0} (p : A → Bool) (before : A → A → Bool) (xs : List A)
    → any p (order_by before xs) ≡ any p xs
unfolding order_by
any-order_by p before [] = refl
any-order_by p before (x ∷ xs) =
    any-place p before x (order_by before xs) ∙ ap (λ b. p x || b) (any-order_by p before xs)

one_of-drop_equal :
    (t u : Text) (ws : List Text)
    → (text_eq t u || one_of t (drop_equal u ws)) ≡ (text_eq t u || one_of t ws)
one_of-drop_equal t u [] = refl
one_of-drop_equal t u (w ∷ ws) =
    if-cases (λ (vs : List Text). (text_eq t u || one_of t vs) ≡ (text_eq t u || one_of t (w ∷ ws)))
      (text_eq u w) (λ e. rw (eq_of_text_eq u w e) (ground arith)) (λ e. refl)

one_of-dedup : (t : Text) (ts : List Text) → one_of t (dedup ts) ≡ one_of t ts
unfolding dedup
one_of-dedup t [] = refl
one_of-dedup t (u ∷ us) =
    one_of-drop_equal t u (dedup us) ∙ ap (λ b. text_eq t u || b) (one_of-dedup t us)

-- The records that a scope names.
abbrev pub in_scope : {Url : Type 0} → Platform Url → DeleteScope → NewRecord → Bool
in_scope pf (record_ids wanted) r = one_of r.id wanted
in_scope pf (time_range start_ms end_ms) r = in_range start_ms end_ms r
in_scope pf (domain d) r = url_under pf d r.url
in_scope pf all r = true

-- An id that a record of the scope has.
abbrev pub targeted : {Url : Type 0} → Platform Url → DeleteScope → List NewRecord → Text → Bool
targeted pf scope records t = any (λ (r : NewRecord). text_eq t r.id && in_scope pf scope r) records

one_of-ids_of :
    (p : NewRecord → Bool) (t : Text) (rs : List NewRecord)
    → one_of t (ids_of (keep p rs)) ≡ any (λ (r : NewRecord). text_eq t r.id && p r) rs
one_of-ids_of p t [] = refl
one_of-ids_of p t (x ∷ rs) = ground (arith, one_of-ids_of p t rs)

one_of-keep :
    (q : Text → Bool) (t : Text) (ts : List Text) → one_of t (keep q ts) ≡ (one_of t ts && q t)
one_of-keep q t [] = refl
one_of-keep q t (u ∷ us) = elim (Bool-cases (text_eq t u)) [
  | inl e ↦ rw (eq_of_text_eq t u e) (ground (arith, one_of-keep q u us, text_eq_refl u))
  | inr e ↦ ground (arith, one_of-keep q t us, e)
]

text_eq_sym : (s t : Text) → text_eq s t ≡ text_eq t s
unfolding text_eq
text_eq_sym [] [] = refl
text_eq_sym [] (d ∷ t) = refl
text_eq_sym (c ∷ s) [] = refl
text_eq_sym (c ∷ s) (d ∷ t) = ground (arith, text_eq_sym s t)

any-wanted :
    (t : Text) (wanted : List Text) (rs : List NewRecord)
    → (one_of t wanted && has_record t rs)
      ≡ any (λ (r : NewRecord). text_eq t r.id && one_of r.id wanted) rs
any-wanted t wanted [] = ground arith
any-wanted t wanted (x ∷ rs) = elim (Bool-cases (text_eq t x.id)) [
  | inl e ↦ rw⁻¹ (eq_of_text_eq t x.id e) (ground (arith, any-wanted t wanted rs, text_eq_refl t))
  | inr e ↦ ground (arith, any-wanted t wanted rs, text_eq_sym t x.id, e)
]

-- The ids that are resolved are those of the records in the scope.
abbrev pub Resolves : (Text → Bool) → Result (List Text) StoreError → Type 0
Resolves f (err e) = Unit
Resolves f (ok targets) = (t : Text) → one_of t targets ≡ f t

module _ {Url : Type 0} (pf : Platform Url) where
  pub resolves :
      (s : Store) (scope : DeleteScope)
      → Resolves (targeted pf scope s.records) (record_ids_for_delete pf s scope)
  unfolding record_ids_for_delete
  resolves s (record_ids wanted) = λ t.
      one_of-dedup t _
      ∙ any-order_by (λ u. text_eq t u) text_le _
      ∙ one_of-keep (λ id. has_record id s.records) t wanted
      ∙ any-wanted t wanted s.records
  resolves s (time_range start_ms end_ms) =
      if-holds (Resolves (targeted pf (time_range start_ms end_ms) s.records)) (ltb end_ms start_ms)
        tt (λ t. any-order_by (λ u. text_eq t u) text_le _ ∙ one_of-ids_of _ t s.records)
  resolves s (domain d) = go (normalize_domain pf d)
    where
      go :
          (o : Option Text)
          → Resolves
              (targeted pf (domain d) s.records)
              (elim o as (λ _. Result (List Text) StoreError) [
                | none ↦
                    err (invalid_delete_scope (codes "domain must be a valid host or HTTP(S) URL"))
                | some host ↦ ok (
                    order_by text_le
                      (ids_of (keep (λ (r : NewRecord). url_under pf d r.url) s.records)))
              ])
      go none = tt
      go (some host) = λ t. any-order_by (λ u. text_eq t u) text_le _ ∙ one_of-ids_of _ t s.records
  resolves s all = λ t.
      any-order_by (λ u. text_eq t u) text_le (ids_of s.records)
      ∙ ap (λ rs. one_of t (ids_of rs)) (sym (keep_all s.records))
      ∙ one_of-ids_of (λ r. true) t s.records
    where
      keep_all : (rs : List NewRecord) → keep (λ r. true) rs ≡ rs
      keep_all [] = refl
      keep_all (r ∷ rs) = ap (λ ts. r ∷ ts) (keep_all rs)
