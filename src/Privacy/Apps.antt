-- ===== src/Privacy/Apps.antt =====
-- Which applications the blocklist matches: whole names and runs of whole tokens.
use fndr.Prelude.{
  ℕ, suc, ◌≡◌, ◌≢◌, refl, sym, ◌∙◌, ap, ◌↔◌, ◌⊎◌, inl, inr, Bool, true, false, ◌||◌, List, [], ◌∷◌,
  ◌++◌, arith, leb, any, Has, any-Has, Has-any, length, length-append, windows, take, drop,
  take-append-drop, ||_elim, Bool-cases, if◌then◌else◌, &&_iff,
}
use fndr.Text.{Text, is_empty, text_eq, split_on}
use fndr.Text.Search.{text_eq_iff, text_eq_refl}
use fndr.Platform.{Platform}
use fndr.Privacy.Blocklist.{Blocklist, texts_eq, tokens, entry_blocks, normalize_app, blocks_app}

texts_eq_refl : (ts : List Text) → texts_eq ts ts ≡ true
unfolding texts_eq
texts_eq_refl [] = refl
texts_eq_refl (t ∷ ts) = rw (text_eq_refl t) (texts_eq_refl ts)

eq_of_texts_eq : (ss ts : List Text) → texts_eq ss ts ≡ true → ss ≡ ts
unfolding texts_eq
eq_of_texts_eq [] [] h = refl
eq_of_texts_eq [] (t ∷ ts) h = absurd (cc)
eq_of_texts_eq (s ∷ ss) [] h = absurd (cc)
eq_of_texts_eq (s ∷ ss) (t ∷ ts) h =
    let (e, f) = (&&_iff (text_eq s t) (texts_eq ss ts)).0 h in
    cc ((text_eq_iff s t).0 e, eq_of_texts_eq ss ts f)

take-length-append {ℓ} : {A : Type ℓ} (xs ys : List A) → take (length xs) (xs ++ ys) ≡ xs
take-length-append [] ys = refl
take-length-append (x ∷ xs) ys = ap (λ t. x ∷ t) (take-length-append xs ys)

split_on-ne-nil : (p : ℕ → Bool) (s : Text) → split_on p s ≢ []
unfolding split_on
split_on-ne-nil p [] h = cc
split_on-ne-nil p (c ∷ s) h = ground (arith, split_on-ne-nil p s)

-- An entry has at least one token, so no window of width 0 is asked for.
pub tokens-ne-nil : (s : Text) → tokens s ≢ []
unfolding tokens
tokens-ne-nil s = split_on-ne-nil _ s

-- A run of tokens.
abbrev pub Run : List Text → List Text → Type 0
Run ts xs = (pre : List Text) × (post : List Text) × (xs ≡ pre ++ (ts ++ post))

abbrev found : List Text → List Text → Bool
found ts xs = any (λ w. texts_eq w ts) (windows (length ts) xs)

found_sound : (ts xs : List Text) → found ts xs ≡ true → Run ts xs
found_sound ts [] h = absurd (cc)
found_sound ts (x ∷ xs) h = elim (Bool-cases (leb (length ts) (suc (length xs)))) [
  | inr e ↦ absurd (cc (rw e at h))
  | inl e ↦ elim (||_elim (texts_eq (take (length ts) (x ∷ xs)) ts) (found ts xs) (rw e at h)) [
    | inl q ↦ (
      [],
      drop (length ts) (x ∷ xs),
      sym (take-append-drop (length ts) (x ∷ xs))
          ∙ ap (λ t. t ++ drop (length ts) (x ∷ xs))
              (eq_of_texts_eq (take (length ts) (x ∷ xs)) ts q),
    )
    | inr q ↦ let (pre, post, f) = found_sound ts xs q in (x ∷ pre, post, ap (λ t. x ∷ t) f)
  ]
]

found-append : (ts pre post : List Text) → ts ≢ [] → found ts (pre ++ (ts ++ post)) ≡ true
found-append [] pre post h = absurd (h refl)
found-append (t ∷ ts) [] post h =
    let fits : leb (length (t ∷ ts)) (suc (length (ts ++ post))) ≡ true =
      ground (arith, length-append ts post) in
    rw (fits, take-length-append ts post, texts_eq_refl (t ∷ ts))
found-append (t ∷ ts) (p ∷ pre) post h =
    let rest = pre ++ ((t ∷ ts) ++ post) in
    let fits : leb (length (t ∷ ts)) (suc (length rest)) ≡ true =
      ground (arith, length-append pre ((t ∷ ts) ++ post), length-append (t ∷ ts) post) in
    rw fits (ground (arith, found-append (t ∷ ts) pre post h))

entry_blocks_iff :
    (name entry : Text)
    → (entry_blocks name (tokens name) entry ≡ true)
      ↔ ((entry ≡ name) ⊎ Run (tokens entry) (tokens name))
unfolding entry_blocks
entry_blocks_iff name entry = (to, from)
  where
    to :
        (text_eq entry name || found (tokens entry) (tokens name)) ≡ true
        → (entry ≡ name) ⊎ Run (tokens entry) (tokens name)
    to h = elim (||_elim (text_eq entry name) (found (tokens entry) (tokens name)) h) [
      | inl e ↦ inl ((text_eq_iff entry name).0 e)
      | inr e ↦ inr (found_sound (tokens entry) (tokens name) e)
    ]

    from :
        (entry ≡ name) ⊎ Run (tokens entry) (tokens name)
        → (text_eq entry name || found (tokens entry) (tokens name)) ≡ true
    from (inl e) = rw (e, text_eq_refl name)
    from (inr (pre, post, e)) =
        let q : found (tokens entry) (tokens name) ≡ true =
          rw e (found-append (tokens entry) pre post (tokens-ne-nil entry)) in
        ground arith

-- An application is blocked exactly if it has a name, and some entry is that whole name or a
-- contiguous run of its whole tokens: no entry matches inside a token, and none matches a name
-- that is only a part of the entry.
pub blocks_app_iff :
    {Url : Type 0} (pf : Platform Url) (list : Blocklist) (app : Text)
    → let name = normalize_app pf app in
      (blocks_app pf list app ≡ true) ↔ (
        (is_empty name ≡ false)
        × ((entry : Text) × Has entry list.apps
            × ((entry ≡ name) ⊎ Run (tokens entry) (tokens name))))
unfolding blocks_app
blocks_app_iff pf list app = (to, from)
  where
    name : Text
    name = normalize_app pf app

    to :
        (if is_empty name then false else any (entry_blocks name (tokens name)) list.apps) ≡ true
        → (is_empty name ≡ false)
          × ((entry : Text) × Has entry list.apps
              × ((entry ≡ name) ⊎ Run (tokens entry) (tokens name)))
    to h = elim (Bool-cases (is_empty name)) [
      | inl e ↦ absurd (cc (rw e at h))
      | inr e ↦
          let (entry, m, q) = any-Has (entry_blocks name (tokens name)) list.apps (rw e at h) in
          (e, (entry, m, (entry_blocks_iff name entry).0 q))
    ]

    from :
        (is_empty name ≡ false)
          × ((entry : Text) × Has entry list.apps
              × ((entry ≡ name) ⊎ Run (tokens entry) (tokens name)))
        → (if is_empty name then false else any (entry_blocks name (tokens name)) list.apps) ≡ true
    from (e, (entry, m, q)) = rw e (
        Has-any (entry_blocks name (tokens name)) entry list.apps m
          ((entry_blocks_iff name entry).1 q))
