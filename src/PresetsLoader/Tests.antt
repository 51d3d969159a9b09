-- ===== src/PresetsLoader/Tests.antt =====
-- Runs of src/presets_loader.c, and its theorems at them. A number is read as its text's length.
use mathlib.Core.Option
use iq_tool.Prelude.{ℕ, ◌≡◌, refl, List, [], ◌∷◌, true, some, arith, length}
use iq_tool.Text.{codes, equal_folded, skip_spaces, cut_spaces, before}
use iq_tool.Text.Trimming.{Tidy}
use iq_tool.PresetsLoader.Keys.{gain, agc_profile_str, dc_block_enable}
use iq_tool.PresetsLoader.{Library, load}
use iq_tool.PresetsLoader.Printing.{Written, file_of, preset_of, no_pair, one_pair}
use iq_tool.PresetsLoader.Reading.{on_one_line, fgets, load_file}
use iq_tool.PresetsLoader.Loading.{WellWritten, no_preset, one_preset, load-print}
use iq_tool.PresetsLoader.Limits.{IsValid, Unless, load-IsValid}

abbrev library : Library ℕ
library = record {
  strcasecmp_equal = equal_folded;
  strtod = length;
  strtof = length;
  strtol = length;
  memory = λ n. true;
}

abbrev narrow : Written
narrow = record {
  name = codes "narrow band";
  pairs = (gain, codes "2.5") ∷ (agc_profile_str, codes "dx") ∷ (gain, codes "12.5") ∷ [];
}

abbrev plain : Written
plain = record { name = codes "plain"; pairs = (dc_block_enable, codes "TRUE") ∷ [] }

text-Tidy : (name : List ℕ) → skip_spaces name ≡ name → cut_spaces name ≡ name → Tidy name
text-Tidy name e f = record { front = e; back = f }

two-WellWritten : WellWritten (narrow ∷ plain ∷ [])
unfolding skip_spaces cut_spaces before on_one_line
two-WellWritten =
    one_preset (text-Tidy _ refl refl) refl refl (omega arith)
      (one_pair
        (record {
          tidy = text-Tidy _ refl refl;
          some_value = refl;
          one_line = refl;
          short = omega arith;
        })
        (one_pair
          (record {
            tidy = text-Tidy _ refl refl;
            some_value = refl;
            one_line = refl;
            short = omega arith;
          })
          (one_pair
            (record {
              tidy = text-Tidy _ refl refl;
              some_value = refl;
              one_line = refl;
              short = omega arith;
            })
            no_pair)))
      (one_preset (text-Tidy _ refl refl) refl refl (omega arith)
        (one_pair
          (record {
            tidy = text-Tidy _ refl refl;
            some_value = refl;
            one_line = refl;
            short = omega arith;
          })
          no_pair)
        no_preset)

-- A line that is longer than the buffer comes in two parts.
long_line :
    fgets 3 (b'a' ∷ b'b' ∷ b'c' ∷ b'd' ∷ 10 ∷ []) ≡ (b'a' ∷ b'b' ∷ b'c' ∷ [], b'd' ∷ 10 ∷ [])
unfolding fgets
long_line = refl

load-print_example :
    Option.map (λ l. l.presets) (load_file library (file_of (narrow ∷ plain ∷ [])))
    ≡ some (preset_of library narrow ∷ preset_of library plain ∷ [])
load-print_example =
    load-print library refl (λ n. refl) (narrow ∷ plain ∷ []) two-WellWritten (omega arith)

-- A comment, a header without a bracket, and a pair that then belongs to no preset.
load-IsValid_example :
    Unless IsValid (load library (codes "# x" ∷ codes "[preset:a" ∷ codes "gain=1" ∷ []))
load-IsValid_example = load-IsValid library (codes "# x" ∷ codes "[preset:a" ∷ codes "gain=1" ∷ [])
