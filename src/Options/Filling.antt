-- ===== src/Options/Filling.antt =====
-- What a preset changes.
use mathlib.Core.Option.{some-injective}
use iq_tool.Prelude.{
  ℕ, ◌≡◌, ◌↔◌, ◌||◌, subst, refl, sym, ◌∙◌, List, [], ◌∷◌, Bool, true, false, Option, none, some,
  arith,
}
use iq_tool.Options.Presets.{
  PresetDefinition, Settings, fill, fill_flag, is_some, apply_preset, use_preset,
}

-- What was given on the command line is still so: where `c` has a value, `c'` has the same.
pub record Explicit (c c' : Settings) : Type 0 where
  pub output_sample_format_name :
      fill c.output_sample_format_name c'.output_sample_format_name ≡ c'.output_sample_format_name
  pub gain : fill c.gain c'.gain ≡ c'.gain
  pub profile_str_arg : fill c.profile_str_arg c'.profile_str_arg ≡ c'.profile_str_arg
  pub target_level_arg : fill c.target_level_arg c'.target_level_arg ≡ c'.target_level_arg
  pub lowpass_cutoff_hz_arg :
      fill c.lowpass_cutoff_hz_arg c'.lowpass_cutoff_hz_arg ≡ c'.lowpass_cutoff_hz_arg
  pub highpass_cutoff_hz_arg :
      fill c.highpass_cutoff_hz_arg c'.highpass_cutoff_hz_arg ≡ c'.highpass_cutoff_hz_arg
  pub pass_range_str_arg : fill c.pass_range_str_arg c'.pass_range_str_arg ≡ c'.pass_range_str_arg
  pub stopband_str_arg : fill c.stopband_str_arg c'.stopband_str_arg ≡ c'.stopband_str_arg
  pub transition_width_hz_arg :
      fill c.transition_width_hz_arg c'.transition_width_hz_arg ≡ c'.transition_width_hz_arg
  pub filter_taps_arg : fill c.filter_taps_arg c'.filter_taps_arg ≡ c'.filter_taps_arg
  pub attenuation_db_arg : fill c.attenuation_db_arg c'.attenuation_db_arg ≡ c'.attenuation_db_arg
  pub filter_type_str_arg :
      fill c.filter_type_str_arg c'.filter_type_str_arg ≡ c'.filter_type_str_arg
  pub dc_block_enable : (c.dc_block_enable || c'.dc_block_enable) ≡ c'.dc_block_enable
  pub iq_correction_enable :
      (c.iq_correction_enable || c'.iq_correction_enable) ≡ c'.iq_correction_enable
  pub output_agc_enable : (c.output_agc_enable || c'.output_agc_enable) ≡ c'.output_agc_enable

fill_keeps : (a b : Option ℕ) → fill a (fill a b) ≡ fill a b
unfolding fill
fill_keeps a b = ground arith

fill_flag_keeps : (a : Bool) (b : Option Bool) → (a || fill_flag a b) ≡ fill_flag a b
unfolding fill_flag
fill_flag_keeps a b = ground arith

apply_preset-Explicit : (p : PresetDefinition) (c : Settings) → Explicit c (apply_preset p c)
unfolding apply_preset
apply_preset-Explicit p c = record {
  output_sample_format_name = fill_keeps _ _;
  gain = fill_keeps _ _;
  profile_str_arg = fill_keeps _ _;
  target_level_arg = fill_keeps _ _;
  lowpass_cutoff_hz_arg = fill_keeps _ _;
  highpass_cutoff_hz_arg = fill_keeps _ _;
  pass_range_str_arg = fill_keeps _ _;
  stopband_str_arg = fill_keeps _ _;
  transition_width_hz_arg = fill_keeps _ _;
  filter_taps_arg = fill_keeps _ _;
  attenuation_db_arg = fill_keeps _ _;
  filter_type_str_arg = fill_keeps _ _;
  dc_block_enable = fill_flag_keeps _ _;
  iq_correction_enable = fill_flag_keeps _ _;
  output_agc_enable = ground arith;
}

apply_preset_lem :
    (p : PresetDefinition) (c : Settings)
    → ((apply_preset p c).target_rate ≡ p.target_rate)
      × (Explicit c (apply_preset p c)
          × ((apply_preset p c).output_agc_enable
              ≡ (c.output_agc_enable || is_some p.agc_profile_str)))
unfolding apply_preset is_some
apply_preset_lem p c = (refl, (apply_preset-Explicit p c, refl))

-- Whether a preset has the name.
unfoldable pub named : (ℕ → ℕ → Bool) → ℕ → List PresetDefinition → Bool
named same name [] = false
named same name (p ∷ presets) = same name p.name || named same name presets

-- The preset that the loop stops at.
pub data FirstNamed (same : ℕ → ℕ → Bool) (name : ℕ)
    : List PresetDefinition → PresetDefinition → Type 0 where
  here :
      {p : PresetDefinition} {presets : List PresetDefinition}
      → same name p.name ≡ true
      → FirstNamed same name (p ∷ presets) p
  later :
      {p q : PresetDefinition} {presets : List PresetDefinition}
      → same name q.name ≡ false
      → FirstNamed same name presets p
      → FirstNamed same name (q ∷ presets) p

use_preset-FirstNamed :
    (same : ℕ → ℕ → Bool) (name : ℕ) (c : Settings) {p : PresetDefinition}
    {presets : List PresetDefinition}
    → FirstNamed same name presets p
    → use_preset same name presets c ≡ some (apply_preset p c)
unfolding use_preset
use_preset-FirstNamed same name c (here e) = rw e refl
use_preset-FirstNamed same name c (later e n) = rw e (use_preset-FirstNamed same name c n)

-- The preset that is used is the first one of the name that was asked for: the target rate is its
-- own, what was given on the command line is kept, and the AGC is on exactly if it was, or the
-- preset has an AGC profile.
pub use_preset_lem :
    (same : ℕ → ℕ → Bool) (name : ℕ) (c : Settings) {p : PresetDefinition}
    {presets : List PresetDefinition} {c' : Settings}
    → FirstNamed same name presets p
    → use_preset same name presets c ≡ some c'
    → (c'.target_rate ≡ p.target_rate)
      × (Explicit c c'
          × (c'.output_agc_enable ≡ (c.output_agc_enable || is_some p.agc_profile_str)))
use_preset_lem same name c {p} {c' = c'} n e =
    let go : apply_preset p c ≡ c' =
      some-injective _ _ (sym (use_preset-FirstNamed same name c n) ∙ e) in
    subst
      (λ d.
        (d.target_rate ≡ p.target_rate)
        × (Explicit c d
            × (d.output_agc_enable ≡ (c.output_agc_enable || is_some p.agc_profile_str))))
      go (apply_preset_lem p c)

-- A name is refused exactly if no preset has it.
pub use_preset-none_iff :
    (same : ℕ → ℕ → Bool) (name : ℕ) (c : Settings) (presets : List PresetDefinition)
    → (use_preset same name presets c ≡ none) ↔ (named same name presets ≡ false)
unfolding use_preset named
use_preset-none_iff same name c [] = (λ e. refl, λ e. refl)
use_preset-none_iff same name c (p ∷ presets) =
    let rest = use_preset-none_iff same name c presets in (λ e. ground arith, λ e. ground arith)
