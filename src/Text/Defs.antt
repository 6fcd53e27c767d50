-- ===== src/Text/Defs.antt =====
-- The operations of `str`. A text is the list of its `char`s.
use Prim.Native.Char.{code}
use Prim.Native.String.{String}
use fndr.Prelude.{
  ℕ, zero, suc, ◌+◌, ◌-◌, ◌/◌, ◌%◌, Bool, true, false, ◌&&◌, ◌||◌, List, [], ◌∷◌, ◌++◌, map, Option,
  none, some, if◌then◌else◌, leb, ltb, ◌==◌, length, drop, keep, any, map_option,
}

abbrev pub Text : Type 0
Text = List ℕ

-- The code points of a literal.
abbrev pub codes : String → Text
codes String.[] = []
codes (String.◌∷◌ c s) = code c ∷ codes s

abbrev pub newline : ℕ
newline = 10

abbrev pub carriage_return : ℕ
carriage_return = 13

unfoldable pub is_empty : Text → Bool
is_empty [] = true
is_empty (c ∷ s) = false

unfoldable pub text_eq : Text → Text → Bool
text_eq [] [] = true
text_eq [] (d ∷ t) = false
text_eq (c ∷ s) [] = false
text_eq (c ∷ s) (d ∷ t) = c == d && text_eq s t

unfoldable pub starts_with : Text → Text → Bool
starts_with s [] = true
starts_with [] (c ∷ p) = false
starts_with (d ∷ s) (c ∷ p) = d == c && starts_with s p

unfoldable pub contains : Text → Text → Bool
contains [] p = starts_with [] p
contains (c ∷ s) p = starts_with (c ∷ s) p || contains s p

unfoldable pub ends_with : Text → Text → Bool
ends_with [] p = text_eq [] p
ends_with (c ∷ s) p = text_eq (c ∷ s) p || ends_with s p

-- `matches!(text, "a" | "b" | …)`, and `==` against each entry of a list.
abbrev pub one_of : Text → List Text → Bool
one_of s = any (λ t. text_eq s t)

-- The bytes of one `char` in UTF-8.
unfoldable pub encode_char : ℕ → List ℕ
encode_char c =
    if ltb c 0x80
    then c ∷ []
    else if ltb c 0x800
    then (0xc0 + c / 64) ∷ (0x80 + c % 64) ∷ []
    else if ltb c 0x10000
    then (0xe0 + c / 4096) ∷ (0x80 + c / 64 % 64) ∷ (0x80 + c % 64) ∷ []
    else (0xf0 + c / 262144) ∷ (0x80 + c / 4096 % 64) ∷ (0x80 + c / 64 % 64) ∷ (0x80 + c % 64) ∷ []

-- `as_bytes` and `len`.
unfoldable pub bytes : Text → List ℕ
unfolding encode_char
bytes [] = []
bytes (c ∷ s) = encode_char c ++ bytes s

unfoldable pub str_len : Text → ℕ
unfolding bytes
str_len s = length (bytes s)

unfoldable pub lower_char : ℕ → ℕ
lower_char c = if leb b'A' c && leb c b'Z' then c + 32 else c

unfoldable pub to_ascii_lowercase : Text → Text
unfolding lower_char
to_ascii_lowercase = map lower_char

unfoldable pub is_ascii_digit : ℕ → Bool
is_ascii_digit c = leb b'0' c && leb c b'9'

unfoldable pub is_ascii_alphanumeric : ℕ → Bool
unfolding is_ascii_digit
is_ascii_alphanumeric c =
    is_ascii_digit c || (leb b'a' c && leb c b'z') || (leb b'A' c && leb c b'Z')

-- Unicode's `White_Space`.
unfoldable pub is_whitespace : ℕ → Bool
is_whitespace c =
    (leb 9 c && leb c 13)
    || c == 32
    || c == 0x85
    || c == 0xa0
    || c == 0x1680
    || (leb 0x2000 c && leb c 0x200a)
    || c == 0x2028
    || c == 0x2029
    || c == 0x202f
    || c == 0x205f
    || c == 0x3000

unfoldable pub trim_start_matches : (ℕ → Bool) → Text → Text
trim_start_matches p [] = []
trim_start_matches p (c ∷ s) = let rest = trim_start_matches p s in if p c then rest else c ∷ s

unfoldable pub trim_end_matches : (ℕ → Bool) → Text → Text
unfolding is_empty
trim_end_matches p [] = []
trim_end_matches p (c ∷ s) =
    let rest = trim_end_matches p s in if p c && is_empty rest then [] else c ∷ rest

unfoldable pub trim : Text → Text
unfolding trim_start_matches trim_end_matches is_whitespace
trim s = trim_end_matches is_whitespace (trim_start_matches is_whitespace s)

abbrev pub push_head : ℕ → List Text → List Text
push_head c [] = (c ∷ []) ∷ []
push_head c (w ∷ ws) = (c ∷ w) ∷ ws

-- `split` at the characters of a class.
unfoldable pub split_on : (ℕ → Bool) → Text → List Text
split_on p [] = [] ∷ []
split_on p (c ∷ s) = let rest = split_on p s in if p c then [] ∷ rest else push_head c rest

-- `split` at a text; the number is what is left of a separator that was met.
split_from : Text → ℕ → Text → List Text
unfolding starts_with
split_from sep n [] = [] ∷ []
split_from sep (suc n) (c ∷ s) = split_from sep n s
split_from sep zero (c ∷ s) =
    let after = [] ∷ split_from sep (length sep - 1) s in
    let rest = push_head c (split_from sep zero s) in
    if starts_with (c ∷ s) sep then after else rest

unfoldable pub split_str : Text → Text → List Text
unfolding split_from
split_str sep s = split_from sep 0 s

abbrev pub is_not_empty : Text → Bool
is_not_empty [] = false
is_not_empty (c ∷ s) = true

unfoldable pub split_whitespace : Text → List Text
unfolding split_on is_whitespace
split_whitespace s = keep is_not_empty (split_on is_whitespace s)

unfoldable pub split_once : ℕ → Text → Option (Text × Text)
split_once p [] = none
split_once p (c ∷ s) =
    let rest = map_option (λ (a, b). (c ∷ a, b)) (split_once p s) in
    if c == p then some ([], s) else rest

unfoldable pub split_once_str : Text → Text → Option (Text × Text)
unfolding starts_with
split_once_str sep [] = none
split_once_str sep (c ∷ s) =
    let rest = map_option (λ (a, b). (c ∷ a, b)) (split_once_str sep s) in
    if starts_with (c ∷ s) sep then some ([], drop (length sep) (c ∷ s)) else rest

unfoldable pub strip_prefix : Text → Text → Option Text
unfolding starts_with
strip_prefix p s = if starts_with s p then some (drop (length p) s) else none

-- The iterator's `next()` and `nth(1)`, and the last element.
abbrev pub first : List Text → Option Text
first [] = none
first (w ∷ ws) = some w

abbrev pub second : List Text → Option Text
second [] = none
second (w ∷ ws) = first ws

unfoldable pub last : List Text → Option Text
last [] = none
last (w ∷ []) = some w
last (w ∷ v ∷ ws) = last (v ∷ ws)

-- `str::lines`: a `\r` before a `\n` belongs to the line's end, and there is no empty last line.
unfoldable pub lines : Text → List Text
unfolding starts_with
lines [] = []
lines (c ∷ s) =
    let rest = lines s in
    if c == newline
    then [] ∷ rest
    else if c == carriage_return && starts_with s (newline ∷ [])
    then rest
    else push_head c rest

unfoldable pub join : Text → List Text → Text
join sep [] = []
join sep (w ∷ []) = w
join sep (w ∷ v ∷ ws) = w ++ (sep ++ join sep (v ∷ ws))
