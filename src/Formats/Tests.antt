-- ===== src/Formats/Tests.antt =====
-- The format table at some names.
use iq_tool.Prelude.{◌≡◌, ◌↔◌, refl, none, some}
use iq_tool.Formats.{
  format_unknown, cs16, cs24, get_format_from_string, get_format_description_string,
}
use iq_tool.Formats.Names.{equal_folded, folded, name_of, get_format_from_string_iff}

mixed_case : get_format_from_string equal_folded (some "Cs16") ≡ cs16
unfolding get_format_from_string
mixed_case = refl

no_such_name : get_format_from_string equal_folded (some "cs17") ≡ format_unknown
unfolding get_format_from_string
no_such_name = refl

description : get_format_description_string cs24 ≡ "cs24 (Signed 24-bit Complex)"
unfolding get_format_description_string
description = refl

get_format_from_string_iff_example :
    ((get_format_from_string equal_folded (some "Cs16") ≡ cs16)
      ↔ (folded "Cs16" ≡ folded (name_of cs16)))
    × (get_format_from_string equal_folded none ≡ format_unknown)
get_format_from_string_iff_example =
    get_format_from_string_iff equal_folded (λ a b. refl) cs16 (λ e. cc) "Cs16"
