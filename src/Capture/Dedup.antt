-- ===== src/Capture/Dedup.antt =====
-- crates/fndr-capture/src/dedup.rs: perceptual and semantic deduplication.
pub mod Perceptual
pub mod Semantic
pub mod Sample
pub mod History
pub mod Expiry
use fndr.Prelude.{
  ℕ, zero, suc, ◌+◌, ◌-◌, ◌*◌, ◌/◌, ◌%◌, ◌^◌, max, Bool, true, false, ◌&&◌, ◌||◌, List, [], ◌∷◌,
  ◌++◌, Option, none, some, ◌>>=◌, if◌then◌else◌, ltb, leb, ◌==◌, length, take, drop, any,
}

-- The `img_hash` crate: `H` is its `ImageHash`, made from a 9 by 8 RGBA raster.
pub record ImageHasher (H : Type 0) : Type 0 where
  pub hash_image : List ℕ → H
  pub dist : H → H → ℕ

abbrev pub sample_width : ℕ
sample_width = 9

abbrev pub sample_height : ℕ
sample_height = 8

abbrev pub sample_pixel_bytes : ℕ
sample_pixel_bytes = 4

abbrev pub hash_history : ℕ
hash_history = 3

abbrev pub max_rgb_distance : ℕ
max_rgb_distance = 24

abbrev pub loop_max_rgb_distance : ℕ
loop_max_rgb_distance = 20

-- `[u8; 3]`.
pub record Rgb : Type 0 where
  pub red : ℕ
  pub green : ℕ
  pub blue : ℕ

pub record PerceptualSignature (H : Type 0) : Type 0 where
  pub hash : H
  pub average_rgb : Rgb

-- The channel sums over the pixels of four bytes; what is left over is no pixel.
unfoldable pub channel_sums : List ℕ → Rgb → Rgb
channel_sums (r ∷ g ∷ b ∷ a ∷ rest) sums =
    channel_sums rest (record { red = sums.red + r; green = sums.green + g; blue = sums.blue + b })
channel_sums _ sums = sums

unfoldable pub average_rgb : List ℕ → Rgb
unfolding channel_sums
average_rgb rgba =
    let sums = channel_sums rgba (record { red = 0; green = 0; blue = 0 }) in
    let pixel_count = length rgba / sample_pixel_bytes in
    record {
      red = sums.red / pixel_count % 256;
      green = sums.green / pixel_count % 256;
      blue = sums.blue / pixel_count % 256;
    }

-- `(left as i32 - right as i32).unsigned_abs()`.
abbrev pub abs_diff : ℕ → ℕ → ℕ
abs_diff a b = if leb b a then a - b else b - a

unfoldable pub rgb_distance : Rgb → Rgb → ℕ
rgb_distance left right =
    abs_diff left.red right.red + abs_diff left.green right.green + abs_diff left.blue right.blue

-- A checked `usize` operation: `none` stops the program.
abbrev pub usize : ℕ → Option ℕ
usize n = if ltb n (2 ^ 64) then some n else none

-- `&xs[start..start + count]`, which stops the program out of range.
abbrev pub slice : List ℕ → ℕ → ℕ → Option (List ℕ)
slice xs start count =
    if leb (start + count) (length xs) then some (take count (drop start xs)) else none

-- `xs[start..start + len].copy_from_slice(new)`.
abbrev pub write_slice : List ℕ → ℕ → List ℕ → Option (List ℕ)
write_slice xs start new =
    if leb (start + length new) (length xs)
    then some (take start xs ++ (new ++ drop (start + length new) xs))
    else none

module _ (width height : ℕ) (rgba : List ℕ) where
  -- The body of the inner loop.
  unfoldable pub copy_pixel : ℕ → ℕ → List ℕ → Option (List ℕ)
  copy_pixel sample_y sample_x sample = do
    rows ← usize (sample_y * (height - 1))
    columns ← usize (sample_x * (width - 1))
    let source_y = rows / (sample_height - 1)
    let source_x = columns / (sample_width - 1)
    source_offset ← usize ((source_y * width + source_x) * sample_pixel_bytes)
    pixel ← slice rgba source_offset sample_pixel_bytes
    write_slice sample ((sample_y * sample_width + sample_x) * sample_pixel_bytes) pixel

  -- `for sample_x in 0..SAMPLE_WIDTH`; the first argument counts the rounds left.
  unfoldable pub sample_columns : ℕ → ℕ → ℕ → List ℕ → Option (List ℕ)
  unfolding copy_pixel
  sample_columns zero sample_y sample_x sample = some sample
  sample_columns (suc left) sample_y sample_x sample =
      copy_pixel sample_y sample_x sample >>= sample_columns left sample_y (suc sample_x)

  -- `for sample_y in 0..SAMPLE_HEIGHT`.
  unfoldable pub sample_rows : ℕ → ℕ → List ℕ → Option (List ℕ)
  unfolding sample_columns
  sample_rows zero sample_y sample = some sample
  sample_rows (suc left) sample_y sample =
      sample_columns sample_width sample_y 0 sample >>= sample_rows left (suc sample_y)

-- `width.checked_mul(height)?.checked_mul(4)?`.
unfoldable pub source_len : ℕ → ℕ → Option ℕ
source_len width height = usize (width * height) >>= λ n. usize (n * sample_pixel_bytes)

unfoldable pub blank : ℕ → List ℕ
blank zero = []
blank (suc n) = 0 ∷ blank n

module _ {H : Type 0} (hasher : ImageHasher H) where
  unfoldable pub from_downscaled_rgba : List ℕ → PerceptualSignature H
  unfolding average_rgb
  from_downscaled_rgba rgba = record {
    hash = hasher.hash_image rgba;
    average_rgb = average_rgb rgba;
  }

  -- The outer `none` is a stop of the program, the inner one is the returned `None`.
  unfoldable pub from_native_rgba : ℕ → ℕ → List ℕ → Option (Option (PerceptualSignature H))
  from_native_rgba width height rgba = elim (source_len width height) [
    | none ↦ some none
    | some len ↦
        if ltb width sample_width || ltb height sample_height || ltb (length rgba) len
        then some none
        else (do
          sample ← sample_rows width height rgba sample_height 0 (blank 288)
          some (some (from_downscaled_rgba sample)))
  ]

  unfoldable pub distance_to : PerceptualSignature H → PerceptualSignature H → ℕ
  distance_to a b = hasher.dist a.hash b.hash

  unfoldable pub colour_distance_to : PerceptualSignature H → PerceptualSignature H → ℕ
  colour_distance_to a b = rgb_distance a.average_rgb b.average_rgb
