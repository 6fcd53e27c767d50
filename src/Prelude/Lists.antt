-- ===== src/Prelude/Lists.antt =====
-- Lists measured by native numbers, predicates on lists, and the tests that Rust's iterators make.
use Prim.Native.Nat.{ℕ, zero, suc, ◌+◌, min}
use mathlib.Core.Path.{◌≡◌, refl}
use mathlib.Core.Logic.{◌⊎◌, inl, inr}
use mathlib.Core.Bool.{Bool, true, false, ◌&&◌, ◌||◌}
use mathlib.Core.List.{List, [], ◌∷◌, ◌++◌}
use mathlib.Core.Option.{Option, none, some}
use native.Mathlib.Omega.{arith}
use fndr.Prelude.Tests.{if◌then◌else◌, leb, ||_elim}

module _ {ℓ} {A : Type ℓ} where
  abbrev pub length : List A → ℕ
  length [] = 0
  length (x ∷ xs) = suc (length xs)

  abbrev pub take : ℕ → List A → List A
  take zero xs = []
  take (suc n) [] = []
  take (suc n) (x ∷ xs) = x ∷ take n xs

  abbrev pub drop : ℕ → List A → List A
  drop zero xs = xs
  drop (suc n) [] = []
  drop (suc n) (x ∷ xs) = drop n xs

  abbrev pub get_elem? : List A → ℕ → Option A
  get_elem? [] i = none
  get_elem? (x ∷ xs) zero = some x
  get_elem? (x ∷ xs) (suc i) = get_elem? xs i

  -- `slice::windows`, for a width above 0.
  abbrev pub windows : ℕ → List A → List (List A)
  windows n [] = []
  windows n (x ∷ xs) =
      let rest = windows n xs in if leb n (suc (length xs)) then take n (x ∷ xs) ∷ rest else []

  pub length-append : (xs ys : List A) → length (xs ++ ys) ≡ length xs + length ys
  length-append [] ys = omega arith
  length-append (x ∷ xs) ys = omega (arith, length-append xs ys)

  pub length-take : (n : ℕ) (xs : List A) → length (take n xs) ≡ min n (length xs)
  length-take zero xs = omega arith
  length-take (suc n) [] = omega arith
  length-take (suc n) (x ∷ xs) = omega (arith, length-take n xs)

  pub take-append-drop : (n : ℕ) (xs : List A) → take n xs ++ drop n xs ≡ xs
  take-append-drop zero xs = refl
  take-append-drop (suc n) [] = refl
  take-append-drop (suc n) (x ∷ xs) = rw (take-append-drop n xs)

  -- `iter().any`, `iter().all` and `iter().filter`.
  abbrev pub any : (A → Bool) → List A → Bool
  any p [] = false
  any p (x ∷ xs) = p x || any p xs

  abbrev pub all : (A → Bool) → List A → Bool
  all p [] = true
  all p (x ∷ xs) = p x && all p xs

  abbrev pub keep : (A → Bool) → List A → List A
  keep p [] = []
  keep p (x ∷ xs) = let rest = keep p xs in if p x then x ∷ rest else rest

  abbrev pub All {κ} : (A → Type κ) → List A → Type κ
  All P [] = Unit
  All P (x ∷ xs) = P x × All P xs

module _ {A : Type 0} where
  -- Membership with its position kept.
  abbrev pub Has : A → List A → Type 0
  Has a [] = ⊥
  Has a (x ∷ xs) = (x ≡ a) ⊎ Has a xs

  pub any-Has : (p : A → Bool) (xs : List A) → any p xs ≡ true → (a : A) × Has a xs × (p a ≡ true)
  any-Has p [] h = absurd (cc)
  any-Has p (x ∷ xs) h = elim (||_elim (p x) (any p xs) h) [
    | inl e ↦ (x, inl refl, e)
    | inr e ↦ let (a, m, q) = any-Has p xs e in (a, inr m, q)
  ]

  pub Has-any : (p : A → Bool) (a : A) (xs : List A) → Has a xs → p a ≡ true → any p xs ≡ true
  Has-any p a [] m h = absurd m
  Has-any p a (x ∷ xs) (inl e) h = rw (e, h)
  Has-any p a (x ∷ xs) (inr m) h = ground (arith, Has-any p a xs m h)

  pub All-Has {κ} : (P : A → Type κ) (a : A) (xs : List A) → All P xs → Has a xs → P a
  All-Has P a [] h m = absurd m
  All-Has P a (x ∷ xs) h (inl e) = rw e at h.0
  All-Has P a (x ∷ xs) h (inr m) = All-Has P a xs h.1 m

abbrev pub filter_map {ℓ κ} : {A : Type ℓ} {B : Type κ} → (A → Option B) → List A → List B
filter_map f [] = []
filter_map f (x ∷ xs) = let rest = filter_map f xs in elim (f x) [ none ↦ rest | some y ↦ y ∷ rest ]

-- A stable sort, by insertion before the first element that comes later; `before` holds of ties.
module _ {A : Type 0} (before : A → A → Bool) where
  unfoldable pub place : A → List A → List A
  place x [] = x ∷ []
  place x (y ∷ ys) = if before x y then x ∷ y ∷ ys else y ∷ place x ys

  unfoldable pub order_by : List A → List A
  unfolding place
  order_by [] = []
  order_by (x ∷ xs) = place x (order_by xs)
