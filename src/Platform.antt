-- ===== src/Platform.antt =====
-- What the program takes from outside its sources: Unicode's case and class tables, the `url` crate
-- and `f32` arithmetic.
use fndr.Prelude.{[], none, ℕ, ◌<◌, ◌≡◌, Bool, Option, some, All}
use fndr.Text.{Text, to_ascii_lowercase}

pub record Platform (Url : Type 0) : Type 0 where
  pub to_lowercase : Text → Text  -- `str::to_lowercase`
  pub is_alphanumeric : ℕ → Bool  -- `char::is_alphanumeric`
  pub parse : Text → Option Url  -- `Url::parse`
  pub scheme : Url → Text
  pub username : Url → Text
  pub password : Url → Option Text
  pub host_str : Url → Option Text
  pub query : Url → Option Text
  pub fragment : Url → Option Text
  pub set_username : Url → Text → Option Url
  pub set_password : Url → Option Text → Option Url
  pub set_query : Url → Option Text → Url
  pub set_fragment : Url → Option Text → Url
  pub into_string : Url → Text

-- `to_lowercase` agrees with `to_ascii_lowercase` on ASCII.
abbrev pub LowersAscii : {Url : Type 0} → Platform Url → Type 0
LowersAscii pf = (s : Text) → All (λ c. c < 128) s → pf.to_lowercase s ≡ to_ascii_lowercase s

-- To set a part to nothing removes it, and leaves the parts that are not removed yet.
pub record RemovalsAreLocal {Url : Type 0} (pf : Platform Url) : Type 0 where
  pub username-set_username : (u v : Url) → pf.set_username u [] ≡ some v → pf.username v ≡ []
  pub scheme-set_username : (u v : Url) → pf.set_username u [] ≡ some v → pf.scheme v ≡ pf.scheme u
  pub password-set_password : (u v : Url) → pf.set_password u none ≡ some v → pf.password v ≡ none
  pub username-set_password :
      (u v : Url) → pf.set_password u none ≡ some v → pf.username v ≡ pf.username u
  pub scheme-set_password :
      (u v : Url) → pf.set_password u none ≡ some v → pf.scheme v ≡ pf.scheme u
  pub query-set_query : (u : Url) → pf.query (pf.set_query u none) ≡ none
  pub password-set_query : (u : Url) → pf.password (pf.set_query u none) ≡ pf.password u
  pub username-set_query : (u : Url) → pf.username (pf.set_query u none) ≡ pf.username u
  pub scheme-set_query : (u : Url) → pf.scheme (pf.set_query u none) ≡ pf.scheme u
  pub fragment-set_fragment : (u : Url) → pf.fragment (pf.set_fragment u none) ≡ none
  pub query-set_fragment : (u : Url) → pf.query (pf.set_fragment u none) ≡ pf.query u
  pub password-set_fragment : (u : Url) → pf.password (pf.set_fragment u none) ≡ pf.password u
  pub username-set_fragment : (u : Url) → pf.username (pf.set_fragment u none) ≡ pf.username u
  pub scheme-set_fragment : (u : Url) → pf.scheme (pf.set_fragment u none) ≡ pf.scheme u

-- What the source uses of `f32`; `hundredths n` is the literal n / 100.
pub record Float32 (F : Type 0) : Type 0 where
  pub add : F → F → F
  pub sub : F → F → F
  pub mul : F → F → F
  pub div : F → F → F
  pub hundredths : ℕ → F
  pub millionths : ℕ → F
  pub of_usize : ℕ → F
  pub ge : F → F → Bool
  pub gt : F → F → Bool
  pub le : F → F → Bool
  pub lt : F → F → Bool
  pub min : F → F → F
  pub clamp : F → F → F → F
