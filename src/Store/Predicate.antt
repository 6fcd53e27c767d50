-- ===== src/Store/Predicate.antt =====
-- crates/fndr-store/src/lance_writer.rs: the predicate of a deletion, read as SQL reads it.
use fndr.Prelude.{
  ℕ, ◌≡◌, refl, ◌∙◌, ap, Bool, true, false, List, [], ◌∷◌, ◌++◌, map, Option, none, some,
  if◌then◌else◌, ◌==◌, ==_iff, map_option, append_assoc, Bool-cases, inl, inr,
}
use fndr.Text.{Text, codes, join}
use fndr.Store.Deletion.{escape_quotes, quoted, delete_predicate}

-- A SQL string literal behind its opening quote: two quotes are one character, one quote ends it.
-- The flag says that the character before was a quote. The text, and what follows the literal.
abbrev pub read_body : Bool → Text → Option (Text × Text)
read_body false [] = none
read_body true [] = some ([], [])
read_body false (c ∷ s) =
    let more = map_option (λ (a, b). (c ∷ a, b)) (read_body false s) in
    let ended = read_body true s in if c == b'\'' then ended else more
read_body true (c ∷ s) =
    let more = map_option (λ (a, b). (c ∷ a, b)) (read_body false s) in
    if c == b'\'' then more else some ([], c ∷ s)

abbrev pub read_literal : Text → Option (Text × Text)
read_literal [] = none
read_literal (c ∷ s) = let rest = read_body false s in if c == b'\'' then rest else none

-- A list of literals, up to the closing parenthesis.
abbrev pub Spells : Text → List Text → Type 0
Spells s [] = s ≡ codes ")"
Spells s (id ∷ []) = read_literal s ≡ some (id, codes ")")
Spells s (id ∷ j ∷ ids) =
    (t : Text) × (read_literal s ≡ some (id, codes ", " ++ t)) × Spells t (j ∷ ids)

read_escaped :
    (id : Text) (c : ℕ) (s : Text)
    → (c == b'\'') ≡ false
    → read_body false (escape_quotes id ++ b'\'' ∷ c ∷ s) ≡ some (id, c ∷ s)
read_escaped [] c s h = rw h
read_escaped (d ∷ id) c s h = elim (Bool-cases (d == b'\'')) [
  | inl e ↦ rw ((==_iff d b'\'').0 e, read_escaped id c s h) refl
  | inr e ↦ rw (e, e, read_escaped id c s h) refl
]

read_quoted :
    (id : Text) (c : ℕ) (s : Text)
    → (c == b'\'') ≡ false
    → read_literal (quoted id ++ c ∷ s) ≡ some (id, c ∷ s)
read_quoted id c s h =
    ap (read_body false) (append_assoc (escape_quotes id) (b'\'' ∷ []) (c ∷ s))
    ∙ read_escaped id c s h

-- The literals of a predicate, and its end.
abbrev literals : List Text → Text
literals ids = join (codes ", ") (map quoted ids) ++ codes ")"

literals-Spells : (ids : List Text) → Spells (literals ids) ids
unfolding join
literals-Spells [] = refl
literals-Spells (id ∷ []) = read_quoted id b')' [] refl
literals-Spells (id ∷ j ∷ ids) = (
  literals (j ∷ ids),
  ap read_literal (
        append_assoc (quoted id) (codes ", " ++ join (codes ", ") (map quoted (j ∷ ids)))
          (codes ")"))
      ∙ read_quoted id b',' (b' ' ∷ literals (j ∷ ids)) refl,
  literals-Spells (j ∷ ids),
)

-- The predicate of a deletion is a list of string literals that are, read as SQL reads them, exactly
-- the ids, whatever characters they hold.
pub delete_predicate-Spells :
    (ids : List Text)
    → (t : Text) × (delete_predicate ids ≡ codes "record_id IN (" ++ t) × Spells t ids
unfolding delete_predicate
delete_predicate-Spells ids = (literals ids, refl, literals-Spells ids)
