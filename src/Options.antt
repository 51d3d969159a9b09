-- ===== src/Options.antt =====
-- src/config.c: the checks of the options that exclude each other, and the presets. An option that is a number is
-- represented by what the checks ask of it: whether it was given, or is zero.
pub mod Modes
pub mod Presets
pub mod Filling
pub mod PowersOfTwo
pub mod FilterChain
pub mod FilterChoice
pub mod Outputs
mod Tests
use iq_tool.Prelude.{ℕ, Bool, true, false, not, ◌&&◌, Option, none, some, ltb, if◌then◌else◌}

-- The fields of `AppConfig` that these checks read.
pub record AppConfig : Type 0 where
  pub user_rate_provided : Bool
  pub preset_given : Bool
  pub no_resample : Bool
  pub raw_passthrough : Bool
  pub num_filter_requests : ℕ
  pub freq_shift_is_zero : Bool
  pub iq_correction_enable : Bool
  pub dc_block_enable : Bool

-- `validate_iq_correction_options`
unfoldable pub validate_iq_correction_options : AppConfig → Bool
validate_iq_correction_options c =
    if c.iq_correction_enable then (if not c.dc_block_enable then false else true) else true

-- The checks of `raw_passthrough` in `validate_option_combinations`; `none` is the result false.
unfoldable pub validate_raw_passthrough : AppConfig → Option AppConfig
validate_raw_passthrough c =
    let c' : AppConfig = if not c.no_resample then record c { no_resample = true } else c in
    if ltb 0 c.num_filter_requests
    then none
    else if not c.freq_shift_is_zero
    then none
    else if c.iq_correction_enable
    then none
    else if c.dc_block_enable
    then none
    else some c'

-- The last part of `validate_option_combinations`, on the high-level modes.
unfoldable pub validate_modes : AppConfig → Option AppConfig
validate_modes c =
    if c.user_rate_provided && c.preset_given
    then none
    else if c.no_resample && c.user_rate_provided
    then none
    else if c.no_resample && c.preset_given
    then none
    else if c.raw_passthrough
    then validate_raw_passthrough c
    else some c
