-- ===== src/Options/Presets.antt =====
-- `validate_output_type_and_sample_format` of src/config.c, step 1: what a preset fills in. A value
-- that stands for "not given" (NULL, 0.0, for the gain 1.0) is `none`; a number or a text is a code
-- for it. A field of a preset is `some` exactly if its flag `..._provided` is set and its value counts
-- as given.
use iq_tool.Prelude.{ℕ, List, [], ◌∷◌, Bool, true, false, ◌||◌, Option, none, some, if◌then◌else◌}

-- `PresetDefinition`
pub record PresetDefinition : Type 0 where
  pub name : ℕ
  pub target_rate : ℕ
  pub output_sample_format_name : Option ℕ
  pub gain : Option ℕ
  pub dc_block_enable : Option Bool
  pub iq_correction_enable : Option Bool
  pub agc_profile_str : Option ℕ
  pub agc_target : Option ℕ
  pub lowpass_cutoff_hz : Option ℕ
  pub highpass_cutoff_hz : Option ℕ
  pub pass_range_str : Option ℕ
  pub stopband_str : Option ℕ
  pub transition_width_hz : Option ℕ
  pub filter_taps : Option ℕ
  pub attenuation_db : Option ℕ
  pub filter_type_str : Option ℕ

-- The fields of `AppConfig` that a preset may fill in, in the first place of each chain of filters.
pub record Settings : Type 0 where
  pub target_rate : ℕ
  pub output_sample_format_name : Option ℕ
  pub gain : Option ℕ
  pub dc_block_enable : Bool
  pub iq_correction_enable : Bool
  pub output_agc_enable : Bool
  pub profile_str_arg : Option ℕ
  pub target_level_arg : Option ℕ
  pub lowpass_cutoff_hz_arg : Option ℕ
  pub highpass_cutoff_hz_arg : Option ℕ
  pub pass_range_str_arg : Option ℕ
  pub stopband_str_arg : Option ℕ
  pub transition_width_hz_arg : Option ℕ
  pub filter_taps_arg : Option ℕ
  pub attenuation_db_arg : Option ℕ
  pub filter_type_str_arg : Option ℕ

-- `if (p->x_provided && !config->x) config->x = p->x`
unfoldable pub fill : Option ℕ → Option ℕ → Option ℕ
fill (some given) provided = some given
fill none provided = provided

unfoldable pub fill_flag : Bool → Option Bool → Bool
fill_flag true provided = true
fill_flag false none = false
fill_flag false (some b) = b

unfoldable pub is_some : Option ℕ → Bool
is_some none = false
is_some (some x) = true

-- The body of the loop, where the names agree.
unfoldable pub apply_preset : PresetDefinition → Settings → Settings
apply_preset p c = record {
  target_rate = p.target_rate;
  output_sample_format_name = fill c.output_sample_format_name p.output_sample_format_name;
  gain = fill c.gain p.gain;
  dc_block_enable = fill_flag c.dc_block_enable p.dc_block_enable;
  iq_correction_enable = fill_flag c.iq_correction_enable p.iq_correction_enable;
  output_agc_enable = c.output_agc_enable || is_some p.agc_profile_str;
  profile_str_arg = fill c.profile_str_arg p.agc_profile_str;
  target_level_arg = fill c.target_level_arg p.agc_target;
  lowpass_cutoff_hz_arg = fill c.lowpass_cutoff_hz_arg p.lowpass_cutoff_hz;
  highpass_cutoff_hz_arg = fill c.highpass_cutoff_hz_arg p.highpass_cutoff_hz;
  pass_range_str_arg = fill c.pass_range_str_arg p.pass_range_str;
  stopband_str_arg = fill c.stopband_str_arg p.stopband_str;
  transition_width_hz_arg = fill c.transition_width_hz_arg p.transition_width_hz;
  filter_taps_arg = fill c.filter_taps_arg p.filter_taps;
  attenuation_db_arg = fill c.attenuation_db_arg p.attenuation_db;
  filter_type_str_arg = fill c.filter_type_str_arg p.filter_type_str;
}

-- The loop, for the preset that the user has named; `same` tells whether `strcasecmp` returns 0,
-- and `none` is the result false.
unfoldable pub use_preset : (ℕ → ℕ → Bool) → ℕ → List PresetDefinition → Settings → Option Settings
use_preset same preset_name [] c = none
use_preset same preset_name (p ∷ presets) c =
    let rest = use_preset same preset_name presets c in
    if same preset_name p.name then some (apply_preset p c) else rest
