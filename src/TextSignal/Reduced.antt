-- ===== src/TextSignal/Reduced.antt =====
-- crates/fndr-textsignal/src/cleanup.rs: what `reduce_chrome_noise_for_app` leaves of a text.
use fndr.Prelude.{
  ◌≤◌, ◌≡◌, subst, refl, sym, ◌∙◌, ap, true, false, List, [], ◌∷◌, Option, none, some, arith,
  if◌then◌else◌, ltb, All,
}
use fndr.Text.{Text, newline, is_not_empty, trim, lines, join, str_len, bytes}
use fndr.Text.Words.{IsLine, lines-join}
use fndr.Platform.{Platform, Float32}
use fndr.TextSignal.App.{AppIdentity}
use fndr.TextSignal.Lines.{min_line_len, normalize_inline, snippet_dedup_key}
use fndr.TextSignal.Noise.{should_drop_line}
use fndr.TextSignal.Clean.{push_line, reduce_line, reduce_lines, reduce_chrome_noise_for_app}
use fndr.TextSignal.Kept.{
  push_lines, push_lines-join, kept, kept-FreshKeys, kept-All, kept-kept, FreshKeys,
  normalize_inline_idem, normalize_inline-IsLine,
}

pub filled_of_long : (s : Text) → ltb (str_len s) min_line_len ≡ false → is_not_empty s ≡ true
unfolding str_len bytes
filled_of_long [] h = absurd (cc)
filled_of_long (c ∷ s) h = refl

module _ {Url F : Type 0} (pf : Platform Url) (fl : Float32 F) where
  -- A line as it is kept, if nothing speaks against it but a line before.
  abbrev accepted : AppIdentity → Text → Option Text
  accepted app line =
      let trimmed = normalize_inline (trim line) in
      if ltb (str_len trimmed) min_line_len
      then none
      else if should_drop_line pf fl app trimmed
      then none
      else some trimmed

  -- What holds of each line that is kept.
  abbrev pub IsKeptLine : AppIdentity → Text → Type 0
  IsKeptLine app w = (7 ≤ str_len w) × (should_drop_line pf fl app w ≡ false)

  accepted_sound :
      (app : AppIdentity) (l w : Text)
      → accepted app l ≡ some w
      → (normalize_inline (trim l) ≡ w)
        × (ltb (str_len w) min_line_len ≡ false)
        × (should_drop_line pf fl app w ≡ false)
  accepted_sound app l w h = ground arith

  accepted_again :
      (app : AppIdentity) (l w : Text) → accepted app l ≡ some w → accepted app w ≡ some w
  accepted_again app l w h =
      let (e, a, d) = accepted_sound app l w h in
      rw (ap (λ t. normalize_inline (trim t)) (sym e) ∙ normalize_inline_idem (trim l) ∙ e, a, d)
        refl

  accepted-IsLine : (app : AppIdentity) (l w : Text) → accepted app l ≡ some w → IsLine w
  accepted-IsLine app l w h =
      let (e, a, d) = accepted_sound app l w h in
      subst IsLine e (
        normalize_inline-IsLine (trim l)
          (subst (λ t. is_not_empty t ≡ true) (sym e) (filled_of_long w a)))

  -- The lines of the result.
  abbrev reduced : AppIdentity → List Text → List Text → List Text
  reduced app = kept (accepted app) (snippet_dedup_key pf)

  reduce_lines_lem :
      (app : AppIdentity) (ls : List Text) (out : Text) (seen : List Text)
      → reduce_lines pf fl app ls out seen ≡ push_lines out (reduced app ls seen)
  unfolding reduce_lines reduce_line
  reduce_lines_lem app [] out seen = refl
  reduce_lines_lem app (l ∷ ls) out seen =
      let w = normalize_inline (trim l) in
      ground (
        arith,
        reduce_lines_lem app ls out seen,
        reduce_lines_lem app ls (push_line out w) (snippet_dedup_key pf w ∷ seen),
      )

  pub lines-reduce :
      (app : AppIdentity) (text : Text)
      → (reduce_chrome_noise_for_app pf fl app text
          ≡ join (newline ∷ []) (reduced app (lines text) []))
        × (lines (reduce_chrome_noise_for_app pf fl app text) ≡ reduced app (lines text) [])
  unfolding reduce_chrome_noise_for_app
  lines-reduce app text =
      let ls =
        kept-All (accepted app) (snippet_dedup_key pf) IsLine (accepted-IsLine app) (lines text)
          [] in
      let e = reduce_lines_lem app (lines text) [] [] ∙ push_lines-join _ ls in
      (e, ap lines e ∙ lines-join _ ls)

  -- Reducing a text that has been reduced for the same application changes nothing.
  pub reduce_chrome_noise_for_app_idem :
      (app : AppIdentity) (text : Text)
      → reduce_chrome_noise_for_app pf fl app (reduce_chrome_noise_for_app pf fl app text)
        ≡ reduce_chrome_noise_for_app pf fl app text
  reduce_chrome_noise_for_app_idem app text =
      let (e, f) = lines-reduce app text in
      (lines-reduce app (reduce_chrome_noise_for_app pf fl app text)).0
      ∙ ap (λ ls. join (newline ∷ []) (reduced app ls [])) f
      ∙ ap (join (newline ∷ []))
          (kept-kept (accepted app) (snippet_dedup_key pf) (accepted_again app) (lines text) [])
      ∙ sym e

  -- Each line of a reduced text has at least 7 bytes and is no noise for the application, and no
  -- two of them have the same key.
  pub reduce_chrome_noise_for_app_sound :
      (app : AppIdentity) (text : Text)
      → All (IsKeptLine app) (lines (reduce_chrome_noise_for_app pf fl app text))
        × FreshKeys (snippet_dedup_key pf) [] (lines (reduce_chrome_noise_for_app pf fl app text))
  reduce_chrome_noise_for_app_sound app text =
      let f = (lines-reduce app text).1 in
      rw f (
        kept-All (accepted app) (snippet_dedup_key pf) (IsKeptLine app)
            (λ l w h. let (e, a, d) = accepted_sound app l w h in (ground (arith, a), d))
            (lines text) [],
        kept-FreshKeys (accepted app) (snippet_dedup_key pf) (lines text) [],
      )
