-- ===== src/Prelude/Every.antt =====
-- What holds of every entry, through the operations on lists.
use Prim.Native.Nat.{ℕ, zero, suc}
use mathlib.Core.Path.{◌≡◌, refl, ap, ◌∙◌}
use mathlib.Core.Bool.{Bool, true}
use mathlib.Core.List.{List, [], ◌∷◌, ◌++◌, map}
use fndr.Prelude.Tests.{if-holds, if-cases}
use fndr.Prelude.Lists.{All, keep, take, length, place, order_by}

pub All-weaken {ℓ κ μ} :
    {A : Type ℓ} {P : A → Type κ} {Q : A → Type μ}
    → ((x : A) → P x → Q x)
    → (xs : List A) → All P xs
    → All Q xs
All-weaken f [] h = tt
All-weaken f (x ∷ xs) h = (f x h.0, All-weaken f xs h.1)

module _ {κ} {A : Type 0} (P : A → Type κ) where
  pub All-keep : (p : A → Bool) (xs : List A) → All P xs → All P (keep p xs)
  All-keep p [] h = tt
  All-keep p (x ∷ xs) h = let rest = All-keep p xs h.1 in if-holds (All P) (p x) (h.0, rest) rest

  pub All-keep_test :
      {Q : A → Type κ} (p : A → Bool)
      → ((x : A) → p x ≡ true → P x → Q x)
      → (xs : List A) → All P xs
      → All Q (keep p xs)
  All-keep_test {Q} p f [] h = tt
  All-keep_test {Q} p f (x ∷ xs) h =
      let rest = All-keep_test p f xs h.1 in
      if-cases (All Q) (p x) (λ e. (f x e h.0, rest)) (λ e. rest)

  pub All-take : (n : ℕ) (xs : List A) → All P xs → All P (take n xs)
  All-take zero xs h = tt
  All-take (suc n) [] h = tt
  All-take (suc n) (x ∷ xs) h = (h.0, All-take n xs h.1)

  pub All-append : (xs ys : List A) → All P xs → All P ys → All P (xs ++ ys)
  All-append [] ys h k = k
  All-append (x ∷ xs) ys h k = (h.0, All-append xs ys h.1 k)

  All-place :
      (before : A → A → Bool) (x : A) (ys : List A) → P x → All P ys → All P (place before x ys)
  unfolding place
  All-place before x [] h k = (h, tt)
  All-place before x (y ∷ ys) h k =
      if-holds (All P) (before x y) (h, k) (k.0, All-place before x ys h k.1)

  pub All-order_by : (before : A → A → Bool) (xs : List A) → All P xs → All P (order_by before xs)
  unfolding order_by
  All-order_by before [] h = tt
  All-order_by before (x ∷ xs) h =
      All-place before x (order_by before xs) h.0 (All-order_by before xs h.1)

pub All-map :
    {A B : Type 0} (P : A → Type 0) (Q : B → Type 0) (f : A → B) (xs : List A)
    → ((a : A) → P a → Q (f a))
    → All P xs
    → All Q (map f xs)
All-map P Q f [] g h = tt
All-map P Q f (x ∷ xs) g h = (g x h.0, All-map P Q f xs g h.1)

module _ {A : Type 0} (before : A → A → Bool) where
  length-place : (x : A) (ys : List A) → length (place before x ys) ≡ suc (length ys)
  unfolding place
  length-place x [] = refl
  length-place x (y ∷ ys) =
      if-holds (λ (zs : List A). length zs ≡ suc (suc (length ys))) (before x y) refl
        (ap suc (length-place x ys))

  pub length-order_by : (xs : List A) → length (order_by before xs) ≡ length xs
  unfolding order_by
  length-order_by [] = refl
  length-order_by (x ∷ xs) = length-place x (order_by before xs) ∙ ap suc (length-order_by xs)
