-- ===== src/Options/Outputs.antt =====
-- `validate_output_type_and_sample_format` of src/config.c from its second step on: the rate, the
-- container and the format of the output. A rate that is not positive is `none`.
pub mod Accepted
pub mod Chosen
use Prim.Native.String.{String}
use mathlib.Core.Bool.{true≢false}
use mathlib.Core.Option.{none-ne-some, some-injective}
use iq_tool.Prelude.{
  ℕ, ◌≡◌, ◌↔◌, refl, ap, subst, ◌∙◌, Bool, true, false, not, ◌&&◌, ◌||◌, Option, none, some, arith,
  ◌==◌, if◌then◌else◌, inl, inr, Bool-cases,
}
use iq_tool.Formats.{Format, format_unknown, cs16, cu8, id, get_format_from_string}

-- `OutputType`
pub data OutputType : Type 0 where
  raw : OutputType
  wav : OutputType
  wav_rf64 : OutputType

abbrev pub is_wav : OutputType → Bool
is_wav raw = false
is_wav wav = true
is_wav wav_rf64 = true

-- The fields of `AppConfig` that are read; `preset_rate` is `target_rate` after the first step.
pub record OutputOptions : Type 0 where
  pub output_module_str : String
  pub user_defined_target_rate : Option ℕ
  pub preset_rate : Option ℕ
  pub no_resample : Bool
  pub output_sample_format_name : Option String
  pub output_filename_given : Bool

unfoldable pub target_rate : OutputOptions → Option ℕ
target_rate c = elim c.user_defined_target_rate [ none ↦ c.preset_rate | some r ↦ some r ]

abbrev pub is_none : Option ℕ → Bool
is_none none = true
is_none (some r) = false

-- The fourth step; `output_type` is 0, `OUTPUT_TYPE_RAW`, before it.
unfoldable pub output_type_of : (String → String → Bool) → String → OutputType
output_type_of same output_module_str =
    if same output_module_str "raw"
    then raw
    else if same output_module_str "wav"
    then wav_rf64
    else if same output_module_str "stdout"
    then raw
    else raw

-- The fifth step.
unfoldable pub format_name : Option String → Bool → Option String
format_name (some name) filename_given = some name
format_name none true = some "cs16"
format_name none false = none

-- The last step.
unfoldable pub check_format : OutputType → Format → Option (OutputType × Format)
check_format type format =
    if id format == id format_unknown
    then none
    else if is_wav type && not (id format == id cs16 || id format == id cu8)
    then none
    else some (type, format)

unfoldable pub named_format :
    (String → String → Bool) → OutputType → Option String → Option (OutputType × Format)
named_format same type none = none
named_format same type (some name) = check_format type (get_format_from_string same (some name))

unfoldable pub validate_output :
    (String → String → Bool) → OutputOptions → Option (OutputType × Format)
validate_output same c =
    if is_none (target_rate c) && not c.no_resample
    then none
    else named_format same (output_type_of same c.output_module_str)
        (format_name c.output_sample_format_name c.output_filename_given)
