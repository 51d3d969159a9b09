-- ===== src/Options/Modes.antt =====
-- What the checks of the modes change.
use iq_tool.Prelude.{◌≡◌, ◌||◌, some, arith}
use iq_tool.Options.{AppConfig, validate_raw_passthrough, validate_modes}

-- A configuration that is accepted is kept, but for the resampler, which raw passthrough turns off.
pub validate_modes_lem :
    (c : AppConfig) {c' : AppConfig}
    → validate_modes c ≡ some c'
    → c' ≡ record c { no_resample = c.no_resample || c.raw_passthrough }
unfolding validate_modes validate_raw_passthrough
validate_modes_lem c e = ground arith
