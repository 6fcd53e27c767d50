-- ===== src/Tests/Web.antt =====
-- A small platform for the tests: ASCII letters, and URLs of the form `scheme://host`.
use fndr.Prelude.{
  [], ◌-◌, ltb, ap, sym, ◌≡◌, ℕ, ◌+◌, ◌*◌, ◌/◌, refl, Option, none, some, ◌++◌, leb, min, max,
}
use fndr.Text.{Text, codes, to_ascii_lowercase, is_ascii_alphanumeric, split_once_str}
use fndr.Platform.{Platform, Float32, RemovalsAreLocal, LowersAscii}

pub record WebUrl : Type 0 where
  pub scheme : Text
  pub username : Text
  pub password : Option Text
  pub host : Text
  pub query : Option Text
  pub fragment : Option Text

-- A user and a query are made up.
abbrev pub parse_web : Text → Option WebUrl
parse_web s = elim (split_once_str (codes "://") s) [
  | none ↦ none
  | some (scheme, host) ↦ some (record {
    scheme = scheme;
    username = codes "me";
    password = none;
    host = host;
    query = some (codes "token");
    fragment = none;
  })
]

abbrev pub web : Platform WebUrl
web = record {
  to_lowercase = to_ascii_lowercase;
  is_alphanumeric = is_ascii_alphanumeric;
  parse = parse_web;
  scheme = λ u. u.scheme;
  username = λ u. u.username;
  password = λ u. u.password;
  host_str = λ u. some u.host;
  query = λ u. u.query;
  fragment = λ u. u.fragment;
  set_username = λ u x. some (record u { username = x });
  set_password = λ u x. some (record u { password = x });
  set_query = λ u x. record u { query = x };
  set_fragment = λ u x. record u { fragment = x };
  into_string = λ u. u.scheme ++ (codes "://" ++ u.host);
}

some-inj : (u v : WebUrl) → some u ≡ some v → u ≡ v
some-inj u v h = cc

pub web_lowers : LowersAscii web
web_lowers s h = refl

pub web_local : RemovalsAreLocal web
web_local = record {
  username-set_username =
      λ u v h. ap (λ (w : WebUrl). w.username) (sym (some-inj (record u { username = [] }) v h));
  scheme-set_username =
      λ u v h. ap (λ (w : WebUrl). w.scheme) (sym (some-inj (record u { username = [] }) v h));
  password-set_password =
      λ u v h. ap (λ (w : WebUrl). w.password) (sym (some-inj (record u { password = none }) v h));
  username-set_password =
      λ u v h. ap (λ (w : WebUrl). w.username) (sym (some-inj (record u { password = none }) v h));
  scheme-set_password =
      λ u v h. ap (λ (w : WebUrl). w.scheme) (sym (some-inj (record u { password = none }) v h));
  query-set_query = λ u. refl;
  password-set_query = λ u. refl;
  username-set_query = λ u. refl;
  scheme-set_query = λ u. refl;
  fragment-set_fragment = λ u. refl;
  query-set_fragment = λ u. refl;
  password-set_fragment = λ u. refl;
  username-set_fragment = λ u. refl;
  scheme-set_fragment = λ u. refl;
}

-- Numbers of hundredths in place of `f32`.
abbrev pub hundredths : Float32 ℕ
hundredths = record {
  add = λ a b. a + b;
  sub = λ a b. a - b;
  mul = λ a b. a * b / 100;
  div = λ a b. a * 100 / b;
  hundredths = λ n. n;
  millionths = λ n. n / 10_000;
  of_usize = λ n. n * 100;
  ge = λ a b. leb b a;
  gt = λ a b. ltb b a;
  le = λ a b. leb a b;
  lt = λ a b. ltb a b;
  min = λ a b. min a b;
  clamp = λ x low high. min (max x low) high;
}
