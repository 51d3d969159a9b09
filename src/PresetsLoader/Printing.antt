-- ===== src/PresetsLoader/Printing.antt =====
-- Presets as one writes them into the file, and what they mean.
use iq_tool.Prelude.{
  ℕ, ◌≡◌, List, [], ◌∷◌, ◌++◌, Bool, true, false, ◌&&◌, ◌==◌, if◌then◌else◌, ◌<◌, length,
}
use iq_tool.Text.{codes, is_empty}
use iq_tool.Text.Trimming.{Tidy}
use iq_tool.PresetsLoader.Keys.{
  PresetKeyAction, strdup, to_double, to_float, to_long, to_bool, Field, description, target_rate,
  output_sample_format_name, gain, dc_block_enable, iq_correction_enable, agc_profile_str,
  agc_target, lowpass_cutoff_hz, highpass_cutoff_hz, pass_range_str, stopband_str,
  transition_width_hz, filter_taps, attenuation_db, filter_type_str, offset, PresetKeyHandler,
}
use iq_tool.PresetsLoader.Reading.{max_line_length, on_one_line, joined}
use iq_tool.PresetsLoader.{Value, cleared, Preset, Library, new_value}

abbrev entry : List ℕ → PresetKeyAction → Field → Bool → PresetKeyHandler
entry key_name action field has_flag = record {
  key_name = key_name;
  action = action;
  field = field;
  has_flag = has_flag;
}

-- What a field is called in the file, and how its text is read.
abbrev pub documented : Field → PresetKeyHandler
documented description = entry (codes "description") strdup description false
documented target_rate = entry (codes "target_rate") to_double target_rate false
documented output_sample_format_name =
    entry (codes "output_sample_format_name") strdup output_sample_format_name false
documented gain = entry (codes "gain-multiplier") to_float gain true
documented dc_block_enable = entry (codes "dc_block") to_bool dc_block_enable true
documented iq_correction_enable = entry (codes "iq_correction") to_bool iq_correction_enable true
documented agc_profile_str = entry (codes "agc_profile") strdup agc_profile_str true
documented agc_target = entry (codes "agc_target") to_float agc_target true
documented lowpass_cutoff_hz = entry (codes "lowpass") to_float lowpass_cutoff_hz true
documented highpass_cutoff_hz = entry (codes "highpass") to_float highpass_cutoff_hz true
documented pass_range_str = entry (codes "pass_range") strdup pass_range_str true
documented stopband_str = entry (codes "stopband") strdup stopband_str true
documented transition_width_hz = entry (codes "transition_width") to_float transition_width_hz true
documented filter_taps = entry (codes "filter_taps") to_long filter_taps true
documented attenuation_db = entry (codes "attenuation") to_float attenuation_db true
documented filter_type_str = entry (codes "filter_type") strdup filter_type_str true

-- A preset with its keys and their values in the order of the file.
pub record Written : Type 0 where
  pub name : List ℕ
  pub pairs : List (Field × List ℕ)

abbrev pub header_line : List ℕ → List ℕ
header_line name = codes "[preset:" ++ (name ++ (b']' ∷ 10 ∷ []))

abbrev pub pair_line : Field → List ℕ → List ℕ
pair_line field value = (documented field).key_name ++ (b'=' ∷ (value ++ (10 ∷ [])))

unfoldable pub pair_lines : List (Field × List ℕ) → List (List ℕ) → List (List ℕ)
pair_lines [] more = more
pair_lines ((field, value) ∷ pairs) more = pair_line field value ∷ pair_lines pairs more

unfoldable pub print : List Written → List (List ℕ)
print [] = []
print (w ∷ ws) = header_line w.name ∷ pair_lines w.pairs (print ws)

-- What the pairs make of a field that holds `old`, and whether it counts as provided.
unfoldable pub value_after :
    {N : Type 0} → Library N → Field → Value N → List (Field × List ℕ) → Value N
value_after lib f old [] = old
value_after lib f old ((field, value) ∷ pairs) =
    value_after lib f
      (if offset f == offset field then new_value lib (documented f).action value old else old)
      pairs

unfoldable pub provided_after : Field → Bool → List (Field × List ℕ) → Bool
provided_after f old [] = old
provided_after f old ((field, value) ∷ pairs) =
    provided_after f (if offset f == offset field && (documented f).has_flag then true else old)
      pairs

abbrev pub preset_of : {N : Type 0} → Library N → Written → Preset N
preset_of lib w = record {
  name = w.name;
  value = λ f. value_after lib f cleared w.pairs;
  provided = λ f. provided_after f false w.pairs;
}

-- The bytes of a file with these lines.
abbrev pub file_of : List Written → List ℕ
file_of ws = joined (print ws)

-- Names have no closing bracket, and neither names nor values have spaces at the ends, newlines or
-- NULs; a value has at least one byte, and every line is shorter than the buffer of `fgets`.
pub record PlainPair (pair : Field × List ℕ) : Type 0 where
  pub tidy : Tidy pair.1
  pub some_value : is_empty pair.1 ≡ false
  pub one_line : on_one_line pair.1 ≡ true
  pub short : length (pair_line pair.0 pair.1) < max_line_length

pub data AllPlain : List (Field × List ℕ) → Type 0 where
  no_pair : AllPlain []
  one_pair :
      {pair : Field × List ℕ} {pairs : List (Field × List ℕ)}
      → PlainPair pair
      → AllPlain pairs
      → AllPlain (pair ∷ pairs)
