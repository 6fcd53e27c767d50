-- ===== src/Tests/Mcp.antt =====
-- crates/fndr-mcp and crates/fndr-types at concrete inputs.
use fndr.Prelude.{◌-◌, min, ◌≡◌, refl, true, [], ◌∷◌, ◌++◌, none, some, err, arith}
use fndr.Text.{Text, codes, one_of, bytes, encode_char, text_eq, strip_prefix, starts_with}
use fndr.Mcp.Auth.{
  AuthConfig, RateWindow, Headers, allow, header_text, origin_allowed, check_headers, check_request,
  check_request_sound, unauthorized,
}
use fndr.Mcp.Rate.{allow_all, count_true, allow_all-window}

abbrev config : AuthConfig
config = record {
  token = codes "f00d";
  allowed_hosts = codes "127.0.0.1:80" ∷ [];
  allowed_origins = [];
  max_requests_per_second = 2;
}

abbrev window : RateWindow
window = record { window_start = 500; count = 0 }

abbrev good : Headers
good = record {
  host = some (some (codes "127.0.0.1:80"));
  origin = none;
  authorization = some (some (codes "Bearer f00d"));
}

-- The program, opened.
program : Unit {0}
unfolding check_request check_headers allow header_text origin_allowed bytes encode_char text_eq
    strip_prefix starts_with
program = tt

no_token :
    (check_request config window 600 600 (record good { authorization = none })).1
    ≡ err unauthorized
unfolding program
no_token = refl

check_request_sound_example :
    ((allow window 600 600 2).1 ≡ true)
    × (one_of (header_text good.host) config.allowed_hosts ≡ true)
    × (origin_allowed config good.origin ≡ true)
    × ((t : Text) × (header_text good.authorization ≡ codes "Bearer " ++ t)
        × (bytes t ≡ bytes config.token))
unfolding program
check_request_sound_example = check_request_sound config window 600 600 good (λ e. cc e) refl

allow_all-window_example :
    count_true (allow_all window 2 ((600, 600) ∷ (700, 700) ∷ (800, 800) ∷ [])) ≡ min 3 (2 - 0)
allow_all-window_example =
    allow_all-window window 2 ((600, 600) ∷ (700, 700) ∷ (800, 800) ∷ [])
      (omega arith, (omega arith, (omega arith, tt))) (omega arith)
