-- ===== src/ModuleManager.antt =====
-- src/module_manager.c: the table of modules, and the options that they offer. An interface or a
-- callback of a module is named by the module it belongs to. The list is kept in the arena; `memory`
-- tells whether there is room for it.
pub mod Lookup
pub mod Options
mod Tests
use iq_tool.Prelude.{
  ℕ, ◌+◌, List, [], ◌∷◌, ◌++◌, Bool, true, false, not, ◌&&◌, Option, none, some, ltb, ◌==◌,
  if◌then◌else◌, length, map,
}
use iq_tool.Text.{codes}

pub data ModuleType : Type 0 where
  input : ModuleType
  output : ModuleType

abbrev pub same_type : ModuleType → ModuleType → Bool
same_type input input = true
same_type output output = true
same_type input output = false
same_type output input = false

-- The interfaces, `get_..._module_api()`.
pub data Api : Type 0 where
  wav_input : Api
  raw_file_input : Api
  rtlsdr : Api
  sdrplay : Api
  hackrf : Api
  bladerf : Api
  spyserver_client : Api
  raw_file_output : Api
  wav_output : Api
  wav_rf64_output : Api
  stdout_output : Api

-- `Module`; `set_default_config` and `get_cli_options` are false where they are NULL.
pub record Module : Type 0 where
  pub name : List ℕ
  pub module_type : ModuleType
  pub api : Api
  pub is_sdr : Bool
  pub set_default_config : Bool
  pub get_cli_options : Bool
  pub requires_output_path : Bool

-- The radios that are compiled in.
pub record Build : Type 0 where
  pub with_rtlsdr : Bool
  pub with_sdrplay : Bool
  pub with_hackrf : Bool
  pub with_bladerf : Bool

abbrev file_input : List ℕ → Api → Module
file_input name api = record {
  name = name;
  module_type = input;
  api = api;
  is_sdr = false;
  set_default_config = false;
  get_cli_options = true;
  requires_output_path = false;
}

abbrev radio : List ℕ → Api → Module
radio name api = record {
  name = name;
  module_type = input;
  api = api;
  is_sdr = true;
  set_default_config = true;
  get_cli_options = true;
  requires_output_path = false;
}

abbrev output_module : List ℕ → Api → Bool → Module
output_module name api requires_output_path = record {
  name = name;
  module_type = output;
  api = api;
  is_sdr = false;
  set_default_config = false;
  get_cli_options = false;
  requires_output_path = requires_output_path;
}

abbrev included : Bool → Module → List Module → List Module
included true m rest = m ∷ rest
included false m rest = rest

-- `temp_modules`
unfoldable pub temp_modules : Build → List Module
temp_modules b =
    file_input (codes "wav") wav_input
    ∷ file_input (codes "raw-file") raw_file_input
    ∷ included b.with_rtlsdr (radio (codes "rtlsdr") rtlsdr) (
        included b.with_sdrplay (radio (codes "sdrplay") sdrplay) (
          included b.with_hackrf (radio (codes "hackrf") hackrf) (
            included b.with_bladerf (radio (codes "bladerf") bladerf) (
              radio (codes "spyserver-client") spyserver_client
              ∷ output_module (codes "raw-file") raw_file_output true
              ∷ output_module (codes "wav") wav_output true
              ∷ output_module (codes "wav-rf64") wav_rf64_output true
              ∷ output_module (codes "stdout") stdout_output false
              ∷ []))))

-- `all_modules` (`none` is NULL) and `modules_initialized`; `num_all_modules` is the list's length.
pub record Manager : Type 0 where
  pub all_modules : Option (List Module)
  pub modules_initialized : Bool

unfoldable pub initialize_modules_list : Build → Bool → Manager → Manager
initialize_modules_list b memory g = if g.modules_initialized then g else record {
  all_modules = if memory then some (temp_modules b) else none;
  modules_initialized = true;
}

-- The loop of `_find_module_by_name_and_type`; `same` tells whether `strcasecmp` returns 0.
unfoldable pub find_module :
    (List ℕ → List ℕ → Bool) → List ℕ → ModuleType → List Module → Option Module
find_module same name type [] = none
find_module same name type (m ∷ modules) =
    let rest = find_module same name type modules in
    if same_type m.module_type type && same name m.name then some m else rest

-- `_find_module_by_name_and_type` on what is left after the initialisation; `none` is NULL.
unfoldable pub find_module_by_name_and_type :
    (List ℕ → List ℕ → Bool) → Option (List ℕ) → ModuleType → Manager → Option Module
find_module_by_name_and_type same none type g = none
find_module_by_name_and_type same (some name) type g = elim g.all_modules [
  | none ↦ none
  | some modules ↦ find_module same name type modules
]

unfoldable pub get_input_interface_by_name :
    (List ℕ → List ℕ → Bool) → Option (List ℕ) → Manager → Option Api
get_input_interface_by_name same name g = elim (find_module_by_name_and_type same name input g) [
  | none ↦ none
  | some m ↦ some m.api
]

unfoldable pub is_sdr_module : (List ℕ → List ℕ → Bool) → Option (List ℕ) → Manager → Bool
is_sdr_module same name g = elim (find_module_by_name_and_type same name input g) [
  | none ↦ false
  | some m ↦ m.is_sdr
]

-- `module_manager_apply_defaults`: whose callbacks run, in order.
unfoldable pub defaults_of : List Module → List Api
defaults_of [] = []
defaults_of (m ∷ modules) =
    let rest = defaults_of modules in if m.set_default_config then m.api ∷ rest else rest

unfoldable pub apply_defaults : Manager → List Api
apply_defaults g = elim g.all_modules [ none ↦ [] | some modules ↦ defaults_of modules ]

-- An option: whether it is the header of a group, and where its value goes (`none` is NULL).
pub record CliOption : Type 0 where
  pub is_group : Bool
  pub value : Option ℕ

-- The inner loop, for the options of a module that is not the active input.
unfoldable pub without_value : CliOption → CliOption
without_value o = if o.is_group then o else record o { value = none }

-- Whether the values of the module's options are taken away.
unfoldable pub is_inactive : (List ℕ → List ℕ → Bool) → Option (List ℕ) → Module → Bool
is_inactive same none m = false
is_inactive same (some active) m = same_type m.module_type input && not (same m.name active)

-- The loop of `module_manager_populate_cli_options`, over the buffer's first `*total_opts_ptr`
-- entries; `options_of` are the options of a module. The copy and the inner loop are one step.
unfoldable pub populate :
    (List ℕ → List ℕ → Bool)
    → (Api → List CliOption)
    → ℕ
    → Option (List ℕ)
    → List Module
    → List CliOption
    → List CliOption
populate same options_of max_opts active [] dest = dest
populate same options_of max_opts active (m ∷ modules) dest =
    let opts = options_of m.api in
    let copied = if is_inactive same active m then map without_value opts else opts in
    let more = populate same options_of max_opts active modules (dest ++ copied) in
    let skipped = populate same options_of max_opts active modules dest in
    if m.get_cli_options && ltb 0 (length opts)
    then (if ltb max_opts (length dest + length opts) then dest else more)
    else skipped

unfoldable pub populate_cli_options :
    (List ℕ → List ℕ → Bool)
    → (Api → List CliOption)
    → ℕ
    → Option (List ℕ)
    → Manager
    → List CliOption
    → List CliOption
populate_cli_options same options_of max_opts active g dest = elim g.all_modules [
  | none ↦ dest
  | some modules ↦ populate same options_of max_opts active modules dest
]
