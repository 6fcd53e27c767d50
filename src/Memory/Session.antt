-- ===== src/Memory/Session.antt =====
-- crates/fndr-memory/src/continuity.rs: the identity of a half-hour session.
use fndr.Prelude.{
  ℕ, ◌+◌, ◌/◌, ◌%◌, ◌*◌, ◌<◌, ◌≡◌, refl, ◌↔◌, true, not, ◌||◌, List, [], ◌∷◌, ◌++◌, map, Option,
  none, some, Result, ok, err, arith, if◌then◌else◌, leb, ◌==◌, take, all, keep, unwrap_or,
}
use fndr.Text.{
  Text, codes, trim, split_on, split_whitespace, join, bytes, str_len, to_ascii_lowercase,
  is_ascii_digit, is_ascii_alphanumeric, second,
}
use fndr.Platform.{Platform}
use fndr.Memory.Anchor.{domain, is_char}

pub data SessionIdentityError : Type 0 where
  invalid_day invalid_minute : SessionIdentityError

-- `{:02}` of a number below 100.
abbrev pub two_digits : ℕ → Text
two_digits n = (b'0' + n / 10) ∷ (b'0' + n % 10) ∷ []

unfoldable pub app_part : Text → Option Text → Text
app_part app_name bundle_id =
    map (λ c. if is_ascii_alphanumeric c || (c == b'.' || c == b'_') then c else b'_')
      (to_ascii_lowercase (unwrap_or app_name bundle_id))

unfoldable pub anchor_part : Text → Text
anchor_part session_key =
    map (λ c. if is_ascii_alphanumeric c || (c == b'_' || c == b'-') then c else b'_')
      (unwrap_or (codes "general") (second (split_on (is_char b':') session_key)))

-- The `format!` of the identity.
abbrev pub session_text : Text → Text → Text → ℕ → Text
session_text day app anchor slot =
    day ++ (codes "-" ++ (app ++ (codes "-" ++ (anchor ++ (codes "-s" ++ two_digits slot)))))

unfoldable pub build_session_id :
    Text → ℕ → Text → Option Text → Text → Result Text SessionIdentityError
build_session_id day minute_of_day app_name bundle_id session_key =
    if not (str_len day == 8) || not (all is_ascii_digit (bytes day))
    then err invalid_day
    else if leb (24 * 60) minute_of_day
    then err invalid_minute
    else ok (
        session_text day (app_part app_name bundle_id) (anchor_part session_key)
          (minute_of_day / 30))

unfoldable pub replace_char : ℕ → ℕ → Text → Text
replace_char from to = map (λ c. if c == from then to else c)

unfoldable pub build_session_key : {Url : Type 0} → Platform Url → Text → Text → Option Text → Text
build_session_key pf app_name window_title url =
    let app = replace_char b' ' b'_' (pf.to_lowercase (trim app_name)) in
    let kept =
      keep (λ c. pf.is_alphanumeric c || c == b' ') (pf.to_lowercase (trim window_title)) in
    let title = join (codes "_") (take 5 (split_whitespace kept)) in
    elim (domain url) [
      | some host ↦ app ++ (codes ":" ++ (replace_char b'.' b'_' host ++ (codes ":" ++ title)))
      | none ↦ app ++ (codes ":" ++ title)
    ]

tail-injective {ℓ} : {A : Type ℓ} (x : A) (ys zs : List A) → x ∷ ys ≡ x ∷ zs → ys ≡ zs
tail-injective x ys zs e = cc

append-injective {ℓ} : {A : Type ℓ} (xs : List A) {ys zs : List A} → xs ++ ys ≡ xs ++ zs → ys ≡ zs
append-injective [] h = h
append-injective (x ∷ xs) h = append-injective xs (tail-injective x _ _ h)

two_digits-injective : (a b : ℕ) → a < 100 → b < 100 → two_digits a ≡ two_digits b → a ≡ b
two_digits-injective a b ha hb h = grind arith

session_text-injective :
    (day app anchor : Text) (a b : ℕ)
    → a < 100
    → b < 100
    → session_text day app anchor a ≡ session_text day app anchor b
    → a ≡ b
session_text-injective day app anchor a b ha hb h = two_digits-injective a b ha hb (
    append-injective (codes "-s") (
      append-injective anchor (
        append-injective (codes "-")
          (append-injective app (append-injective (codes "-") (append-injective day h))))))

build_session_id-valid :
    (day app_name session_key : Text) (bundle_id : Option Text) (m : ℕ)
    → str_len day ≡ 8
    → all is_ascii_digit (bytes day) ≡ true
    → m < 24 * 60
    → build_session_id day m app_name bundle_id session_key
      ≡ ok (session_text day (app_part app_name bundle_id) (anchor_part session_key) (m / 30))
unfolding build_session_id
build_session_id-valid day app key bundle m l d h = ground arith

ok-injective : (a b : Text) → Path (Result Text SessionIdentityError) (ok a) (ok b) → a ≡ b
ok-injective a b h = cc

-- For a valid day and minutes of the day, one application and one key, two captures share a session
-- identity exactly if they fall into the same half hour.
pub same_session_iff :
    (day app_name session_key : Text) (bundle_id : Option Text) (m n : ℕ)
    → str_len day ≡ 8
    → all is_ascii_digit (bytes day) ≡ true
    → m < 24 * 60
    → n < 24 * 60
    → (build_session_id day m app_name bundle_id session_key
        ≡ build_session_id day n app_name bundle_id session_key)
      ↔ (m / 30 ≡ n / 30)
same_session_iff day app key bundle m n l d hm hn =
    rw
      (
        build_session_id-valid day app key bundle m l d hm,
        build_session_id-valid day app key bundle n l d hn,
      )
      (
        λ h.
            session_text-injective day _ _ (m / 30) (n / 30) (omega arith) (omega arith)
              (ok-injective _ _ h),
        λ h. rw h refl,
      )

-- An identity is built exactly for a day of eight digits and a minute of the day, whatever the
-- application and the key.
pub build_session_id_total :
    (day app_name session_key : Text) (bundle_id : Option Text) (m : ℕ)
    → ((id : Text) × (build_session_id day m app_name bundle_id session_key ≡ ok id))
      ↔ ((str_len day ≡ 8) × (all is_ascii_digit (bytes day) ≡ true) × (m < 24 * 60))
unfolding build_session_id
build_session_id_total day app key bundle m =
    (λ h. ground arith, λ (l, d, h). (_, build_session_id-valid day app key bundle m l d h))
