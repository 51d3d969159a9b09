-- ===== src/PresetsLoader/Keys.antt =====
-- The table of keys of src/presets_loader.c.
use iq_tool.Prelude.{ℕ, List, [], ◌∷◌, Bool, true, false}
use iq_tool.Text.{codes}

-- `PresetKeyAction`
pub data PresetKeyAction : Type 0 where
  strdup : PresetKeyAction
  to_double : PresetKeyAction
  to_float : PresetKeyAction
  to_long : PresetKeyAction
  to_bool : PresetKeyAction

-- The fields of `PresetDefinition` that the handlers point to.
pub data Field : Type 0 where
  description : Field
  target_rate : Field
  output_sample_format_name : Field
  gain : Field
  dc_block_enable : Field
  iq_correction_enable : Field
  agc_profile_str : Field
  agc_target : Field
  lowpass_cutoff_hz : Field
  highpass_cutoff_hz : Field
  pass_range_str : Field
  stopband_str : Field
  transition_width_hz : Field
  filter_taps : Field
  attenuation_db : Field
  filter_type_str : Field

abbrev pub offset : Field → ℕ
offset description = 0
offset target_rate = 1
offset output_sample_format_name = 2
offset gain = 3
offset dc_block_enable = 4
offset iq_correction_enable = 5
offset agc_profile_str = 6
offset agc_target = 7
offset lowpass_cutoff_hz = 8
offset highpass_cutoff_hz = 9
offset pass_range_str = 10
offset stopband_str = 11
offset transition_width_hz = 12
offset filter_taps = 13
offset attenuation_db = 14
offset filter_type_str = 15

pub record PresetKeyHandler : Type 0 where
  pub key_name : List ℕ
  pub action : PresetKeyAction
  pub field : Field
  pub has_flag : Bool

abbrev handler : List ℕ → PresetKeyAction → Field → Bool → PresetKeyHandler
handler key_name action field has_flag = record {
  key_name = key_name;
  action = action;
  field = field;
  has_flag = has_flag;
}

unfoldable pub key_handlers : List PresetKeyHandler
key_handlers =
    handler (codes "description") strdup description false
    ∷ handler (codes "target_rate") to_double target_rate false
    ∷ handler (codes "output_sample_format_name") strdup output_sample_format_name false
    ∷ handler (codes "gain-multiplier") to_float gain true
    ∷ handler (codes "dc_block") to_bool dc_block_enable true
    ∷ handler (codes "iq_correction") to_bool iq_correction_enable true
    ∷ handler (codes "agc_profile") strdup agc_profile_str true
    ∷ handler (codes "agc_target") to_float agc_target true
    ∷ handler (codes "lowpass") to_float lowpass_cutoff_hz true
    ∷ handler (codes "highpass") to_float highpass_cutoff_hz true
    ∷ handler (codes "pass_range") strdup pass_range_str true
    ∷ handler (codes "stopband") strdup stopband_str true
    ∷ handler (codes "transition_width") to_float transition_width_hz true
    ∷ handler (codes "filter_taps") to_long filter_taps true
    ∷ handler (codes "attenuation") to_float attenuation_db true
    ∷ handler (codes "filter_type") strdup filter_type_str true
    ∷ []
