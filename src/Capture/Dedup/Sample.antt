-- ===== src/Capture/Dedup/Sample.antt =====
-- Sampling a native frame never reads or writes out of range, and never overflows.
use fndr.Prelude.{
  ℕ, zero, suc, ◌+◌, ◌-◌, ◌*◌, ◌/◌, ◌^◌, ◌<◌, ◌≤◌, ◌≡◌, ◌↔◌, refl, ◌∙◌, ap, Bool, true, false, List,
  [], ◌∷◌, ◌++◌, Option, none, some, arith, ltb, leb, length, length-append, length-take, take,
  drop, ◌&&◌, Bool-cases, inl, inr,
}
use fndr.Capture.Dedup.{
  ImageHasher, PerceptualSignature, usize, slice, write_slice, copy_pixel, sample_columns,
  sample_rows, blank, from_native_rgba, from_downscaled_rgba, sample_width, sample_height,
  source_len,
}

length-drop : (n : ℕ) (xs : List ℕ) → length (drop n xs) ≡ length xs - n
length-drop zero xs = omega arith
length-drop (suc n) [] = omega arith
length-drop (suc n) (x ∷ xs) = omega (arith, length-drop n xs)

usize_fits : (n : ℕ) → n < 2 ^ 64 → usize n ≡ some n
usize_fits n h = ground arith

slice_fits :
    (xs : List ℕ) (start count : ℕ)
    → start + count ≤ length xs
    → (ys : List ℕ) × (slice xs start count ≡ some ys) × (length ys ≡ count)
slice_fits xs start count h = (
  take count (drop start xs),
  ground arith,
  omega (arith, length-take count (drop start xs), length-drop start xs),
)

write_slice_fits :
    (xs : List ℕ) (start : ℕ) (new : List ℕ)
    → start + length new ≤ length xs
    → (ys : List ℕ) × (write_slice xs start new ≡ some ys) × (length ys ≡ length xs)
write_slice_fits xs start new h = (
  take start xs ++ (new ++ drop (start + length new) xs),
  ground arith,
  omega (
    arith,
    length-append (take start xs) (new ++ drop (start + length new) xs),
    length-append new (drop (start + length new) xs),
    length-take start xs,
    length-drop (start + length new) xs,
  ),
)

mul_mono : (a b c d : ℕ) → a ≤ b → c ≤ d → a * c ≤ b * d
mul_mono a b c d h k = grind arith

last_row : (width height : ℕ) → 0 < height → (height - 1) * width + width ≡ width * height
last_row width zero h = absurd (omega arith)
last_row width (suc n) h = grind arith

scaled_le : (i n k : ℕ) → 0 < k → i ≤ k → i * n / k ≤ n
scaled_le i n k p h = grind arith

-- The frame that is sampled.
record Fits (width height : ℕ) (rgba : List ℕ) : Type 0 where
  wide : sample_width ≤ width
  high : sample_height ≤ height
  representable : width * height * 4 < 2 ^ 64
  filled : width * height * 4 ≤ length rgba

module _ (width height : ℕ) (rgba : List ℕ) (fits : Fits width height rgba) where
  rows_fit : (y : ℕ) → y < 8 → y * (height - 1) < 2 ^ 64
  rows_fit y h =
      omega (arith, fits, mul_mono y width (height - 1) height (omega (arith, fits)) (omega arith))

  columns_fit : (x : ℕ) → x < 9 → x * (width - 1) < 2 ^ 64
  columns_fit x h =
      omega (arith, fits, mul_mono (width - 1) width x height (omega arith) (omega (arith, fits)))

  offset_fits :
      (sy sx : ℕ)
      → sy ≤ height - 1
      → sx ≤ width - 1
      → (sy * width + sx) * 4 + 4 ≤ width * height * 4
  offset_fits sy sx h k = omega (
    arith,
    fits,
    mul_mono sy (height - 1) width width h (omega arith),
    last_row width height (omega (arith, fits)),
  )

  copy_pixel_fits :
      (y x : ℕ) (sample : List ℕ)
      → y < 8
      → x < 9
      → length sample ≡ 288
      → (next : List ℕ) × (copy_pixel width height rgba y x sample ≡ some next)
        × (length next ≡ 288)
  unfolding copy_pixel
  copy_pixel_fits y x sample hy hx e =
      let sy = y * (height - 1) / 7 in
      let sx = x * (width - 1) / 8 in
      let off = (sy * width + sx) * 4 in
      let room =
        offset_fits sy sx (scaled_le y (height - 1) 7 (omega arith) (omega arith))
          (scaled_le x (width - 1) 8 (omega arith) (omega arith)) in
      let (pixel, p, four) = slice_fits rgba off 4 (omega (arith, fits)) in
      let (next, q, same) = write_slice_fits sample ((y * 9 + x) * 4) pixel (omega arith) in
      let r : usize (y * (height - 1)) ≡ some (y * (height - 1)) = usize_fits _ (rows_fit y hy) in
      let c : usize (x * (width - 1)) ≡ some (x * (width - 1)) = usize_fits _ (columns_fit x hx) in
      let o : usize off ≡ some off = usize_fits off (omega (arith, fits)) in
      (next, rw (r, c, o, p) q, same ∙ e)

  columns_total :
      (left y x : ℕ) (sample : List ℕ)
      → y < 8
      → x + left ≤ 9
      → length sample ≡ 288
      → (next : List ℕ) × (sample_columns width height rgba left y x sample ≡ some next)
        × (length next ≡ 288)
  unfolding sample_columns
  columns_total zero y x sample hy hx e = (sample, refl, e)
  columns_total (suc left) y x sample hy hx e =
      let (mid, p, f) = copy_pixel_fits y x sample hy (omega arith) e in
      let (next, q, g) = columns_total left y (suc x) mid hy (omega arith) f in (next, rw p q, g)

  rows_total :
      (left y : ℕ) (sample : List ℕ)
      → y + left ≤ 8
      → length sample ≡ 288
      → (next : List ℕ) × (sample_rows width height rgba left y sample ≡ some next)
  unfolding sample_rows
  rows_total zero y sample hy e = (sample, refl)
  rows_total (suc left) y sample hy e =
      let (mid, p, f) = columns_total 9 y 0 sample (omega arith) (omega arith) e in
      let (next, q) = rows_total left (suc y) mid (omega arith) f in (next, rw p q)

length-blank : (n : ℕ) → length (blank n) ≡ n
unfolding blank
length-blank zero = refl
length-blank (suc n) = ap suc (length-blank n)

abbrev pub is_some : {A : Type 0} → Option A → Bool
is_some none = false
is_some (some a) = true

abbrev fits_test : ℕ → ℕ → List ℕ → Bool
fits_test width height rgba =
    (leb 9 width && leb 8 height)
    && (ltb (width * height * 4) (2 ^ 64) && leb (width * height * 4) (length rgba))

source_len_fits :
    (width height : ℕ)
    → width * height * 4 < 2 ^ 64
    → source_len width height ≡ some (width * height * 4)
unfolding source_len
source_len_fits width height h = ground arith

accepted :
    {H : Type 0} (hasher : ImageHasher H) (width height : ℕ) (rgba : List ℕ)
    → Fits width height rgba
    → (sample : List ℕ) × (from_native_rgba hasher width height rgba
        ≡ some (some (from_downscaled_rgba hasher sample)))
unfolding from_native_rgba
accepted hasher width height rgba fits =
    let (sample, p) =
      rows_total width height rgba fits 8 0 (blank 288) (omega arith) (length-blank 288) in
    let n = source_len_fits width height fits.representable in
    let w : ltb width 9 ≡ false = ground arith in
    let h : ltb height 8 ≡ false = ground arith in
    let l : ltb (length rgba) (width * height * 4) ≡ false = ground arith in
    (sample, rw (n, w, h, l, p, from_native_rgba))

refused :
    {H : Type 0} (hasher : ImageHasher H) (width height : ℕ) (rgba : List ℕ)
    → fits_test width height rgba ≡ false
    → from_native_rgba hasher width height rgba ≡ some none
unfolding from_native_rgba source_len
refused hasher width height rgba e = ground arith

-- Sampling never stops the program: no index is out of range and no product overflows. It returns
-- a signature exactly for a frame of at least 9 by 8 pixels whose size in bytes fits a `usize` and
-- is covered by the buffer, and `None` for every other.
pub from_native_rgba_total :
    {H : Type 0} (hasher : ImageHasher H) (width height : ℕ) (rgba : List ℕ)
    → (result : Option (PerceptualSignature H)) × (from_native_rgba hasher width height rgba
        ≡ some result)
      × ((is_some result ≡ true) ↔ (
          (sample_width ≤ width)
          × (sample_height ≤ height)
          × (width * height * 4 < 2 ^ 64)
          × (width * height * 4 ≤ length rgba)))
from_native_rgba_total hasher width height rgba = elim (Bool-cases (fits_test width height rgba)) [
  | inl e ↦
      let fits : Fits width height rgba = ground arith in
      let (sample, p) = accepted hasher width height rgba fits in
      (some (from_downscaled_rgba hasher sample), p, (λ _. ground arith, λ _. refl))
  | inr e ↦
      (none, refused hasher width height rgba e, (λ h. absurd (cc), λ h. absurd (ground arith)))
]
