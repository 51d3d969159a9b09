-- ===== src/Formats.antt =====
-- include/common_types.h, src/utils.c and src/sample_convert.c: the sample formats, their table of
-- names and their sizes.
pub mod Names
mod Tests
use Prim.Native.String.{String}
use iq_tool.Prelude.{
  ℕ, ◌+◌, ◌*◌, ◌≡◌, List, [], ◌∷◌, Bool, true, false, Option, none, some, ◌==◌, if◌then◌else◌,
}

-- `format_t`
pub data Format : Type 0 where
  format_unknown u8 s8 u16 s16 u32 s32 f32 cu8 cs8 cu16 cs16 cs24 cu32 cs32 cf32 sc16q11 : Format

-- The value of the enumeration constant.
unfoldable pub id : Format → ℕ
id format_unknown = 0
id u8 = 1
id s8 = 2
id u16 = 3
id s16 = 4
id u32 = 5
id s32 = 6
id f32 = 7
id cu8 = 8
id cs8 = 9
id cu16 = 10
id cs16 = 11
id cs24 = 12
id cu32 = 13
id cs32 = 14
id cf32 = 15
id sc16q11 = 16

-- A value as the constant that it is, if it is one.
unfoldable pub of_id : ℕ → Option Format
of_id n =
    if n == 0
    then some format_unknown
    else if n == 1
    then some u8
    else if n == 2
    then some s8
    else if n == 3
    then some u16
    else if n == 4
    then some s16
    else if n == 5
    then some u32
    else if n == 6
    then some s32
    else if n == 7
    then some f32
    else if n == 8
    then some cu8
    else if n == 9
    then some cs8
    else if n == 10
    then some cu16
    else if n == 11
    then some cs16
    else if n == 12
    then some cs24
    else if n == 13
    then some cu32
    else if n == 14
    then some cs32
    else if n == 15
    then some cf32
    else if n == 16
    then some sc16q11
    else none

-- `SampleFormatInfo`
pub record SampleFormatInfo : Type 0 where
  pub format_enum : Format
  pub name_str : String
  pub description_str : String

pub format_table : List SampleFormatInfo
format_table =
    record { format_enum = s8; name_str = "s8"; description_str = "s8 (Signed 8-bit Real)" }
    ∷ record { format_enum = u8; name_str = "u8"; description_str = "u8 (Unsigned 8-bit Real)" }
    ∷ record { format_enum = s16; name_str = "s16"; description_str = "s16 (Signed 16-bit Real)" }
    ∷ record { format_enum = u16; name_str = "u16"; description_str = "u16 (Unsigned 16-bit Real)" }
    ∷ record { format_enum = s32; name_str = "s32"; description_str = "s32 (Signed 32-bit Real)" }
    ∷ record { format_enum = u32; name_str = "u32"; description_str = "u32 (Unsigned 32-bit Real)" }
    ∷ record { format_enum = f32; name_str = "f32"; description_str = "f32 (32-bit Float Real)" }
    ∷ record {
      format_enum = cu8;
      name_str = "cu8";
      description_str = "cu8 (Unsigned 8-bit Complex)";
    }
    ∷ record { format_enum = cs8; name_str = "cs8"; description_str = "cs8 (Signed 8-bit Complex)" }
    ∷ record {
      format_enum = cu16;
      name_str = "cu16";
      description_str = "cu16 (Unsigned 16-bit Complex)";
    }
    ∷ record {
      format_enum = cs16;
      name_str = "cs16";
      description_str = "cs16 (Signed 16-bit Complex)";
    }
    ∷ record {
      format_enum = cs24;
      name_str = "cs24";
      description_str = "cs24 (Signed 24-bit Complex)";
    }
    ∷ record {
      format_enum = cu32;
      name_str = "cu32";
      description_str = "cu32 (Unsigned 32-bit Complex)";
    }
    ∷ record {
      format_enum = cs32;
      name_str = "cs32";
      description_str = "cs32 (Signed 32-bit Complex)";
    }
    ∷ record {
      format_enum = cf32;
      name_str = "cf32";
      description_str = "cf32 (32-bit Float Complex)";
    }
    ∷ record {
      format_enum = sc16q11;
      name_str = "sc16q11";
      description_str = "sc16q11 (16-bit Signed Complex Q4.11)";
    }
    ∷ []

-- `get_bytes_per_sample`
unfoldable pub get_bytes_per_sample : Format → ℕ
get_bytes_per_sample format_unknown = 0
get_bytes_per_sample u8 = 1
get_bytes_per_sample s8 = 1
get_bytes_per_sample u16 = 2
get_bytes_per_sample s16 = 2
get_bytes_per_sample u32 = 4
get_bytes_per_sample s32 = 4
get_bytes_per_sample f32 = 4
get_bytes_per_sample cu8 = 2
get_bytes_per_sample cs8 = 2
get_bytes_per_sample cu16 = 4
get_bytes_per_sample cs16 = 4
get_bytes_per_sample cs24 = 6
get_bytes_per_sample cu32 = 8
get_bytes_per_sample cs32 = 8
get_bytes_per_sample cf32 = 8
get_bytes_per_sample sc16q11 = 4

-- The loop of `utils_get_format_from_string`; `same` is what `strcasecmp` finds equal.
pub find_name : (String → String → Bool) → String → List SampleFormatInfo → Format
find_name same name [] = format_unknown
find_name same name (entry ∷ table) =
    if same name entry.name_str then entry.format_enum else find_name same name table

pub get_format_from_string : (String → String → Bool) → Option String → Format
unfolding find_name format_table
get_format_from_string same none = format_unknown
get_format_from_string same (some name) = find_name same name format_table

-- The loop of `utils_get_format_description_string`.
pub find_description : Format → List SampleFormatInfo → String
unfolding id
find_description format [] = "Unknown"
find_description format (entry ∷ table) =
    if id format == id entry.format_enum
    then entry.description_str
    else find_description format table

pub get_format_description_string : Format → String
unfolding find_description format_table
get_format_description_string format = find_description format format_table
