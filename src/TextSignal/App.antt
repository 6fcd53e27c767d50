-- ===== src/TextSignal/App.antt =====
-- crates/fndr-textsignal/src/app.rs: what kind of application is in front.
use fndr.Prelude.{
  Bool, true, false, not, ◌&&◌, List, [], ◌∷◌, Option, none, some, if◌then◌else◌, any,
}
use fndr.Text.{Text, codes, is_empty, text_eq, starts_with, trim, split_on, to_ascii_lowercase}
use fndr.Platform.{Platform}

pub data AppClass : Type 0 where
  browser : AppClass
  code : AppClass
  mail : AppClass
  other : AppClass

unfoldable pub same_class : AppClass → AppClass → Bool
same_class browser browser = true
same_class code code = true
same_class mail mail = true
same_class other other = true
same_class browser code = false
same_class browser mail = false
same_class browser other = false
same_class code browser = false
same_class code mail = false
same_class code other = false
same_class mail browser = false
same_class mail code = false
same_class mail other = false
same_class other browser = false
same_class other code = false
same_class other mail = false

pub record AppIdentity : Type 0 where
  pub name : Text
  pub class : AppClass

unfoldable pub is_browser : AppIdentity → Bool
unfolding same_class
is_browser app = same_class app.class browser

unfoldable pub is_code : AppIdentity → Bool
unfolding same_class
is_code app = same_class app.class code

unfoldable pub is_mail : AppIdentity → Bool
unfolding same_class
is_mail app = same_class app.class mail

abbrev pub bundle_exact : List (Text × AppClass)
bundle_exact =
    (codes "com.apple.safari", browser)
    ∷ (codes "com.apple.safaritechnologypreview", browser)
    ∷ (codes "org.chromium.chromium", browser)
    ∷ (codes "company.thebrowser.browser", browser)
    ∷ (codes "org.mozilla.firefox", browser)
    ∷ (codes "org.mozilla.firefoxdeveloperedition", browser)
    ∷ (codes "org.mozilla.nightly", browser)
    ∷ (codes "com.vivaldi.vivaldi", browser)
    ∷ (codes "com.apple.terminal", code)
    ∷ (codes "com.googlecode.iterm2", code)
    ∷ (codes "com.apple.dt.xcode", code)
    ∷ (codes "com.microsoft.vscode", code)
    ∷ (codes "com.microsoft.vscodeinsiders", code)
    ∷ (codes "com.visualstudio.code.oss", code)
    ∷ (codes "com.todesktop.230313mzl4w4u92", code)
    ∷ (codes "com.google.antigravity", code)
    ∷ (codes "dev.zed.zed", code)
    ∷ (codes "com.apple.mail", mail)
    ∷ (codes "com.microsoft.outlook", mail)
    ∷ (codes "org.mozilla.thunderbird", mail)
    ∷ (codes "com.readdle.smartemail-mac", mail)
    ∷ []

abbrev pub bundle_prefix : List (Text × AppClass)
bundle_prefix =
    (codes "com.google.chrome", browser)
    ∷ (codes "com.brave.browser", browser)
    ∷ (codes "com.microsoft.edgemac", browser)
    ∷ (codes "com.operasoftware.opera", browser)
    ∷ (codes "com.jetbrains.", code)
    ∷ (codes "com.sublimetext.", code)
    ∷ []

-- `iter().find(…).map(|(_, class)| class)`.
abbrev pub find_class : (Text → Bool) → List (Text × AppClass) → Option AppClass
find_class matches [] = none
find_class matches ((key, class) ∷ entries) =
    let rest = find_class matches entries in if matches key then some class else rest

unfoldable pub class_from_bundle_id : Text → Option AppClass
class_from_bundle_id bundle_id =
    let bundle = to_ascii_lowercase (trim bundle_id) in
    if is_empty bundle then none else elim (find_class (λ key. text_eq key bundle) bundle_exact) [
      | some class ↦ some class
      | none ↦ find_class (λ prefix. starts_with bundle prefix) bundle_prefix
    ]

abbrev pub name_tokens : List (Text × AppClass)
name_tokens =
    (codes "chrome", browser)
    ∷ (codes "chromium", browser)
    ∷ (codes "safari", browser)
    ∷ (codes "arc", browser)
    ∷ (codes "firefox", browser)
    ∷ (codes "edge", browser)
    ∷ (codes "brave", browser)
    ∷ (codes "opera", browser)
    ∷ (codes "vivaldi", browser)
    ∷ (codes "terminal", code)
    ∷ (codes "iterm", code)
    ∷ (codes "iterm2", code)
    ∷ (codes "xcode", code)
    ∷ (codes "vscode", code)
    ∷ (codes "code", code)
    ∷ (codes "cursor", code)
    ∷ (codes "zed", code)
    ∷ (codes "sublime", code)
    ∷ (codes "intellij", code)
    ∷ (codes "pycharm", code)
    ∷ (codes "webstorm", code)
    ∷ (codes "goland", code)
    ∷ (codes "alacritty", code)
    ∷ (codes "wezterm", code)
    ∷ (codes "ghostty", code)
    ∷ (codes "warp", code)
    ∷ (codes "mail", mail)
    ∷ (codes "gmail", mail)
    ∷ (codes "outlook", mail)
    ∷ (codes "superhuman", mail)
    ∷ (codes "thunderbird", mail)
    ∷ (codes "airmail", mail)
    ∷ []

abbrev pub class_precedence : List AppClass
class_precedence = browser ∷ code ∷ mail ∷ []

-- One slot of `matched`, after the loops over the tokens and the candidates.
abbrev pub slot_matched : List Text → AppClass → Bool
slot_matched tokens class =
    any
      (λ token.
        not (is_empty token)
        && any (λ (candidate, kind). text_eq candidate token && same_class kind class) name_tokens)
      tokens

-- The first class of the precedence whose slot is set.
abbrev pub first_hit : (AppClass → Bool) → List AppClass → AppClass
first_hit hit [] = other
first_hit hit (class ∷ classes) =
    let rest = first_hit hit classes in if hit class then class else rest

module _ {Url : Type 0} (pf : Platform Url) where
  unfoldable pub class_from_name : Text → AppClass
  class_from_name app_name =
      let tokens = split_on (λ c. not (pf.is_alphanumeric c)) (pf.to_lowercase app_name) in
      first_hit (slot_matched tokens) class_precedence

  unfoldable pub new : Text → Option Text → AppIdentity
  new name none = record { name = name; class = class_from_name name }
  new name (some bundle_id) = elim (class_from_bundle_id bundle_id) [
    | some class ↦ record { name = name; class = class }
    | none ↦ record { name = name; class = class_from_name name }
  ]

  unfoldable pub from_name : Text → AppIdentity
  from_name name = new name none
