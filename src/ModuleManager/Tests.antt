-- ===== src/ModuleManager/Tests.antt =====
-- Runs of src/module_manager.c, and its theorems at them.
use mathlib.Core.List.{Memᴰ}
use iq_tool.Prelude.{
  ◌+◌, ◌≤◌, ◌≡◌, ◌↔◌, refl, List, [], ◌∷◌, ◌++◌, true, false, none, some, arith, length,
}
use iq_tool.Text.{codes, equal_folded}
use iq_tool.ModuleManager.{
  output, Api, Module, Build, Manager, stdout_output, temp_modules, initialize_modules_list,
  find_module_by_name_and_type, is_sdr_module, find_module, CliOption, populate_cli_options,
}
use iq_tool.ModuleManager.Lookup.{matches, find_module_iff}
use iq_tool.ModuleManager.Options.{offered, populate_cli_options_lem}

abbrev build : Build
build = record {
  with_rtlsdr = true;
  with_sdrplay = false;
  with_hackrf = true;
  with_bladerf = false;
}

abbrev manager : Manager
manager = record { all_modules = some (temp_modules build); modules_initialized = true }

the_stick : is_sdr_module equal_folded (some (codes "RTLSDR")) manager ≡ true
unfolding is_sdr_module find_module_by_name_and_type find_module temp_modules equal_folded
the_stick = refl

not_compiled_in : is_sdr_module equal_folded (some (codes "bladerf")) manager ≡ false
unfolding is_sdr_module find_module_by_name_and_type find_module temp_modules equal_folded
not_compiled_in = refl

abbrev stdout_module : Module
stdout_module = record {
  name = codes "stdout";
  module_type = output;
  api = stdout_output;
  is_sdr = false;
  set_default_config = false;
  get_cli_options = false;
  requires_output_path = false;
}

find_module_iff_example :
    (find_module_by_name_and_type equal_folded (some (codes "Stdout")) output (
        initialize_modules_list build true
          (record { all_modules = none; modules_initialized = false }))
      ≡ some stdout_module)
    ↔ (Memᴰ stdout_module (temp_modules build)
        × (matches (codes "Stdout") output stdout_module ≡ true))
find_module_iff_example =
    find_module_iff equal_folded build (codes "Stdout") output stdout_module refl

-- Each module has a header and an option.
abbrev two_options : Api → List CliOption
two_options a =
    record { is_group = true; value = none } ∷ record { is_group = false; value = some 7 } ∷ []

populate_cli_options_lem_example :
    let filled = populate_cli_options equal_folded two_options 8 (some (codes "wav")) manager [] in
    (length filled ≤ 8)
    × (0 + length (offered equal_folded two_options 8 (some (codes "wav")) (temp_modules build)) ≤ 8
        → filled
          ≡ [] ++ offered equal_folded two_options 8 (some (codes "wav")) (temp_modules build))
populate_cli_options_lem_example =
    populate_cli_options_lem equal_folded two_options 8 (some (codes "wav")) (temp_modules build)
      true [] (omega arith)
