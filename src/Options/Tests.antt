-- ===== src/Options/Tests.antt =====
-- Checks of src/config.c at one configuration, and the theorems at it.
use iq_tool.Prelude.{
  ℕ, ◌≤◌, ◌^◌, arith, List, [], ◌∷◌, ◌==◌, ◌≡◌, ◌↔◌, refl, true, false, ◌||◌, some, none,
}
use iq_tool.Options.{
  AppConfig, validate_modes, validate_raw_passthrough, validate_iq_correction_options,
}
use iq_tool.Options.Presets.{
  PresetDefinition, Settings, apply_preset, use_preset, fill, fill_flag, is_some,
}
use iq_tool.Options.Filling.{Explicit, here, later, use_preset_lem}
use Prim.Native.String.{String}
use iq_tool.Formats.{cs16, get_format_from_string}
use iq_tool.Formats.Names.{equal_folded}
use iq_tool.Options.FilterChoice.{
  auto, fft, pos, allows_fft, smallest_fft, validate_filter_type, validate_filter_type_iff,
}
use iq_tool.Options.Outputs.{OutputOptions, validate_output}
use iq_tool.Options.Outputs.Chosen.{HasRate, IsNamed, Fits, container, validate_output_iff}
use iq_tool.Options.Modes.{validate_modes_lem}

-- `--raw-passthrough` with `--output-rate`
abbrev raw_with_rate : AppConfig
raw_with_rate = record {
  user_rate_provided = true;
  preset_given = false;
  no_resample = false;
  raw_passthrough = true;
  num_filter_requests = 0;
  freq_shift_is_zero = true;
  iq_correction_enable = false;
  dc_block_enable = false;
}

-- It is accepted, though `--no-resample` with `--output-rate` is not.
raw_with_rate_accepted :
    validate_modes raw_with_rate ≡ some (record raw_with_rate { no_resample = true })
unfolding validate_modes validate_raw_passthrough
raw_with_rate_accepted = refl

no_resample_with_rate : validate_modes (record raw_with_rate { no_resample = true }) ≡ none
unfolding validate_modes
no_resample_with_rate = refl

correction_without_block :
    validate_iq_correction_options (record raw_with_rate { iq_correction_enable = true }) ≡ false
unfolding validate_iq_correction_options
correction_without_block = refl

validate_modes_lem_example : record raw_with_rate { no_resample = true } ≡ record raw_with_rate {
  no_resample = raw_with_rate.no_resample || raw_with_rate.raw_passthrough;
}
validate_modes_lem_example = validate_modes_lem raw_with_rate raw_with_rate_accepted

abbrev narrow : PresetDefinition
narrow = record {
  name = 7;
  target_rate = 48000;
  output_sample_format_name = some 3;
  gain = none;
  dc_block_enable = some true;
  iq_correction_enable = none;
  agc_profile_str = some 2;
  agc_target = none;
  lowpass_cutoff_hz = some 100;
  highpass_cutoff_hz = none;
  pass_range_str = none;
  stopband_str = none;
  transition_width_hz = none;
  filter_taps = some 31;
  attenuation_db = none;
  filter_type_str = none;
}

abbrev typed : Settings
typed = record {
  target_rate = 0;
  output_sample_format_name = none;
  gain = none;
  dc_block_enable = false;
  iq_correction_enable = false;
  output_agc_enable = false;
  profile_str_arg = none;
  target_level_arg = none;
  lowpass_cutoff_hz_arg = some 50;
  highpass_cutoff_hz_arg = none;
  pass_range_str_arg = none;
  stopband_str_arg = none;
  transition_width_hz_arg = none;
  filter_taps_arg = none;
  attenuation_db_arg = none;
  filter_type_str_arg = none;
}

abbrev filled : Settings
filled = record typed {
  target_rate = 48000;
  output_sample_format_name = some 3;
  dc_block_enable = true;
  output_agc_enable = true;
  profile_str_arg = some 2;
  filter_taps_arg = some 31;
}

abbrev two_presets : List PresetDefinition
two_presets = record narrow { name = 6 } ∷ narrow ∷ []

narrow_used : use_preset ◌==◌ 7 two_presets typed ≡ some filled
unfolding use_preset apply_preset fill fill_flag is_some
narrow_used = refl

use_preset_lem_example :
    (filled.target_rate ≡ 48000)
    × (Explicit typed filled × (filled.output_agc_enable ≡ (false || is_some (some 2))))
use_preset_lem_example =
    use_preset_lem ◌==◌ 7 typed
      (later {p = narrow} {q = record narrow { name = 6 }} refl (here refl)) narrow_used

validate_filter_type_iff_example :
    (validate_filter_type equal_folded (some "FFT") auto (pos 100) (pos 256) ≡ some fft) ↔ (
      (allows_fft equal_folded (some "FFT") ≡ true)
      × (((k : ℕ) × (256 ≡ 2 ^ k)) × (smallest_fft 100 ≤ 256)))
validate_filter_type_iff_example =
    validate_filter_type_iff equal_folded (some "FFT") auto 100 255 (omega arith)

-- No format is named for a file that is called wav-rf64.
abbrev rf64_file : OutputOptions
rf64_file = record {
  output_module_str = "wav-rf64";
  user_defined_target_rate = some 48000;
  preset_rate = none;
  no_resample = false;
  output_sample_format_name = none;
  output_filename_given = true;
}

validate_output_iff_example :
    (validate_output equal_folded rf64_file ≡ some (container equal_folded "wav-rf64", cs16)) ↔ (
      HasRate rf64_file
      × ((name : String) × IsNamed rf64_file name
          × ((get_format_from_string equal_folded (some name) ≡ cs16)
              × Fits (container equal_folded "wav-rf64") cs16)))
validate_output_iff_example = validate_output_iff equal_folded rf64_file cs16
