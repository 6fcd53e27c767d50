-- ===== src/Mcp/Auth.antt =====
-- crates/fndr-mcp/src/auth.rs: the check in front of every request. An `Instant` is a number of
-- milliseconds. The audit log and the body of a refusal are not modelled.
use fndr.Prelude.{
  ℕ, ◌+◌, ◌-◌, ◌/◌, ◌%◌, ◌^◌, ◌≡◌, ◌≢◌, refl, sym, ◌∙◌, ap, inl, inr, Bool, true, not, List, [],
  ◌∷◌, ◌++◌, Option, none, some, ◌>>=◌, Result, ok, err, arith, if◌then◌else◌, ltb, leb, unwrap_or,
  length, drop, Bool-cases,
}
use fndr.Text.{Text, codes, text_eq, one_of, bytes, starts_with, strip_prefix}
use fndr.Text.Search.{starts_with_sound, eq_of_text_eq}

pub record AuthConfig : Type 0 where
  pub token : Text
  pub allowed_hosts : List Text
  pub allowed_origins : List Text
  pub max_requests_per_second : ℕ

-- The port as it is printed.
unfoldable pub loopback : Text → Text → AuthConfig
loopback token port = record {
  token = token;
  allowed_hosts =
      (codes "127.0.0.1:" ++ port) ∷ (codes "localhost:" ++ port) ∷ (codes "[::1]:" ++ port) ∷ [];
  allowed_origins = [];
  max_requests_per_second = 20;
}

pub record RateWindow : Type 0 where
  pub window_start : ℕ
  pub count : ℕ

unfoldable pub new : ℕ → RateWindow
new now = record { window_start = now; count = 0 }

-- `now` is when the window's age is read, `later` when a new window starts. The lock is held
-- throughout, and the counter is a `u64`.
unfoldable pub allow : RateWindow → ℕ → ℕ → ℕ → RateWindow × Bool
allow w now later per_second =
    let current : RateWindow =
      if leb 1 ((now - w.window_start) / 1000)
      then record { window_start = later; count = 0 }
      else w in
    (record current { count = (current.count + 1) % 2 ^ 64 }, ltb current.count per_second)

-- The statuses 429, 403 and 401.
pub data Denied : Type 0 where
  too_many_requests forbidden unauthorized : Denied

-- A header is absent, or present with a value that may not be visible ASCII.
pub record Headers : Type 0 where
  pub host : Option (Option Text)
  pub origin : Option (Option Text)
  pub authorization : Option (Option Text)

-- `and_then(to_str().ok()).unwrap_or("")`.
unfoldable pub header_text : Option (Option Text) → Text
header_text h = unwrap_or [] (h >>= λ v. v)

unfoldable pub origin_allowed : AuthConfig → Option (Option Text) → Bool
origin_allowed config none = true
origin_allowed config (some value) = one_of (unwrap_or [] value) config.allowed_origins

-- What follows the rate limit. `ct_eq` compares the bytes.
unfoldable pub check_headers : AuthConfig → Headers → Result (Unit {0}) Denied
check_headers config req =
    let presented = unwrap_or [] (strip_prefix (codes "Bearer ") (header_text req.authorization)) in
    if not (one_of (header_text req.host) config.allowed_hosts)
    then err forbidden
    else if not (origin_allowed config req.origin)
    then err forbidden
    else if not (text_eq (bytes presented) (bytes config.token))
    then err unauthorized
    else ok tt

unfoldable pub check_request :
    AuthConfig → RateWindow → ℕ → ℕ → Headers → RateWindow × Result (Unit {0}) Denied
check_request config rate now later req =
    let (after, allowed) = allow rate now later config.max_requests_per_second in
    (after, if not allowed then err too_many_requests else check_headers config req)

drop-append {ℓ} : {A : Type ℓ} (xs ys : List A) → drop (length xs) (xs ++ ys) ≡ ys
drop-append [] ys = refl
drop-append (x ∷ xs) ys = drop-append xs ys

-- A token that is not empty is only matched by a header that carries it.
bearer_sound :
    (header token : Text)
    → bytes token ≢ []
    → text_eq (bytes (unwrap_or [] (strip_prefix (codes "Bearer ") header))) (bytes token) ≡ true
    → (t : Text) × (header ≡ codes "Bearer " ++ t) × (bytes t ≡ bytes token)
unfolding strip_prefix bytes
bearer_sound header token n h = elim (Bool-cases (starts_with header (codes "Bearer "))) [
  | inl e ↦
      let (t, q) = starts_with_sound header (codes "Bearer ") e in
      (
        t,
        q,
        ap bytes (sym (drop-append (codes "Bearer ") t) ∙ ap (drop 7) (sym q))
            ∙ eq_of_text_eq _ _ (rw e at h),
      )
  | inr e ↦ absurd (n (sym (eq_of_text_eq [] (bytes token) (rw e at h))))
]

-- With a token that is not empty, a request is let through only if its rate window has room, its
-- `Host` is one of the allowed ones, it has no `Origin` or an allowed one, and its `Authorization`
-- carries the bytes of the token behind "Bearer ".
pub check_request_sound :
    (config : AuthConfig) (rate : RateWindow) (now later : ℕ) (req : Headers)
    → bytes config.token ≢ []
    → (check_request config rate now later req).1 ≡ ok tt
    → ((allow rate now later config.max_requests_per_second).1 ≡ true)
      × (one_of (header_text req.host) config.allowed_hosts ≡ true)
      × (origin_allowed config req.origin ≡ true)
      × ((t : Text) × (header_text req.authorization ≡ codes "Bearer " ++ t)
          × (bytes t ≡ bytes config.token))
unfolding check_request check_headers
check_request_sound config rate now later req n h = (
  ground arith,
  ground arith,
  ground arith,
  bearer_sound (header_text req.authorization) config.token n (ground arith),
)
