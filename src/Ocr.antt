-- ===== src/Ocr.antt =====
-- crates/fndr-ocr/src/vision.rs: what is done with the lines that Apple Vision recognizes. Vision
-- itself, the two regular expressions and `char::is_numeric` are parameters.
pub mod Noise
pub mod Preprocess
use fndr.Prelude.{
  ℕ, Bool, true, false, ◌&&◌, ◌||◌, List, [], ◌∷◌, Option, none, some, if◌then◌else◌, ltb, leb,
  ◌==◌, length, map,
}
use fndr.Text.{Text, codes, newline, text_eq, trim, lines, join, strip_prefix}
use fndr.Platform.{Float32}

pub data RecognitionLevel : Type 0 where
  fast_level accurate_level : RecognitionLevel

pub record OcrConfig (F : Type 0) : Type 0 where
  pub recognition_level : RecognitionLevel
  pub language_correction : Bool
  pub min_confidence : F
  pub aggressive_filtering : Bool
  pub min_line_length : ℕ
  pub custom_noise_patterns : List Text
  pub remove_duplicates : Bool
  pub preserve_formatting : Bool
  pub minimum_text_height : F

pub record OcrAggregateStats (F : Type 0) : Type 0 where
  pub avg_confidence_all : F
  pub avg_confidence_kept : F
  pub lines_used : ℕ
  pub lines_dropped : ℕ
  pub low_conf_count : ℕ

pub record RecognizedText (F : Type 0) : Type 0 where
  pub text : Text
  pub confidence : F
  pub block_count : ℕ
  pub ocr_stats : OcrAggregateStats F

-- `strip_prefix("[LOW_CONF] ")`, or nothing for a marker alone, or the line.
unfoldable pub marker_free_line : Text → Text
marker_free_line line = elim (strip_prefix (codes "[LOW_CONF] ") line) [
  | some payload ↦ payload
  | none ↦ if text_eq line (codes "[LOW_CONF]") then [] else line
]

abbrev pub marker_free_count : Text → ℕ
marker_free_count text = length (trim (join (newline ∷ []) (map marker_free_line (lines text))))

module _ {F : Type 0} (fl : Float32 F) where
  unfoldable pub default_ocr_config : OcrConfig F
  default_ocr_config = record {
    recognition_level = accurate_level;
    language_correction = true;
    min_confidence = fl.hundredths 30;
    aggressive_filtering = true;
    min_line_length = 7;
    custom_noise_patterns = [];
    remove_duplicates = true;
    preserve_formatting = false;
    minimum_text_height = fl.hundredths 2;
  }

  unfoldable pub fast : OcrConfig F
  fast = record {
    recognition_level = fast_level;
    language_correction = false;
    min_confidence = fl.hundredths 30;
    aggressive_filtering = false;
    min_line_length = 5;
    custom_noise_patterns = [];
    remove_duplicates = false;
    preserve_formatting = true;
    minimum_text_height = fl.millionths 15_000;
  }

  unfoldable pub high_quality : OcrConfig F
  high_quality = record {
    recognition_level = accurate_level;
    language_correction = true;
    min_confidence = fl.hundredths 70;
    aggressive_filtering = false;
    min_line_length = 1;
    custom_noise_patterns = [];
    remove_duplicates = false;
    preserve_formatting = true;
    minimum_text_height = fl.hundredths 1;
  }

  unfoldable pub text_volume_qualifies : ℕ → F → ℕ → Bool
  text_volume_qualifies char_count ocr_confidence block_count =
      if char_count == 0
      then false
      else if ltb char_count 80
      then false
      else if leb 400 char_count && fl.ge ocr_confidence (fl.hundredths 35)
      then true
      else if leb 200 char_count && (leb 10 block_count && fl.ge ocr_confidence (fl.hundredths 35))
      then true
      else leb 80 char_count && (leb 5 block_count && fl.ge ocr_confidence (fl.hundredths 55))

  unfoldable pub is_low_signal : RecognizedText F → ℕ → Bool
  unfolding text_volume_qualifies marker_free_line
  is_low_signal r min_chars =
      let char_count = marker_free_count r.text in
      if ltb char_count min_chars
      then true
      else if fl.lt r.confidence (fl.hundredths 15)
      then true
      else if text_volume_qualifies char_count r.confidence r.block_count
      then false
      else leb r.block_count 1 && fl.lt r.confidence (fl.hundredths 35)
