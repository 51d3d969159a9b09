-- ===== src/PresetsLoader.antt =====
-- src/presets_loader.c: the table of keys, and the loop over the lines of the file. `strtod`,
-- `strtof`, `strtol` and `strcasecmp` are parameters, and so is whether the arena has memory for each
-- request. The lines are those that `read_lines` of
-- PresetsLoader/Reading.antt makes of the file, as `fgets` returns them.
pub mod Keys
pub mod Limits
pub mod Printing
pub mod Fields
pub mod Storing
pub mod Lines
pub mod Reading
pub mod Loading
mod Tests
use mathlib.Core.Option
use iq_tool.Prelude.{
  ℕ, zero, suc, ◌+◌, ◌-◌, ◌*◌, List, [], ◌∷◌, ◌++◌, Bool, true, false, not, ◌&&◌, ◌||◌, Option,
  none, some, leb, ◌==◌, if◌then◌else◌, length, take, drop,
}
use iq_tool.PresetsLoader.Keys.{
  PresetKeyAction, strdup, to_double, to_float, to_long, to_bool, Field, offset, PresetKeyHandler,
  key_handlers,
}
use iq_tool.Text.{codes, is_empty, trim_whitespace, strstr, before, skip_byte, split_at}

-- What a field holds: `cleared` after `memset`, else what was stored last.
pub data Value (N : Type 0) : Type 0 where
  cleared : Value N
  text : List ℕ → Value N
  number : N → Value N
  flag : Bool → Value N

pub record Preset (N : Type 0) : Type 0 where
  pub name : List ℕ
  pub value : Field → Value N
  pub provided : Field → Bool

-- What the loader calls. `memory n` tells whether the arena's request `n` succeeds.
pub record Library (N : Type 0) : Type 0 where
  pub strcasecmp_equal : List ℕ → List ℕ → Bool
  pub strtod : List ℕ → N
  pub strtof : List ℕ → N
  pub strtol : List ℕ → N
  pub memory : ℕ → Bool

-- `config->presets`, the capacity of that array, and the requests made; `current_preset` is NULL or,
-- if `current` is true, the last preset.
pub record Loader (N : Type 0) : Type 0 where
  pub presets : List (Preset N)
  pub current : Bool
  pub capacity : ℕ
  pub requests : ℕ

abbrev pub max_presets : ℕ
max_presets = 128

unfoldable pub store_at : {A : Type 0} → Field → A → (Field → A) → Field → A
store_at field a old f = if offset f == offset field then a else old f

unfoldable pub update_last : {A : Type 0} → (A → A) → List A → List A
update_last f [] = []
update_last f (p ∷ []) = f p ∷ []
update_last f (p ∷ (q ∷ ps)) = p ∷ update_last f (q ∷ ps)

-- The loop over the handlers.
unfoldable pub find_handler :
    (List ℕ → List ℕ → Bool) → List ℕ → List PresetKeyHandler → Option PresetKeyHandler
find_handler same key [] = none
find_handler same key (h ∷ handlers) =
    let rest = find_handler same key handlers in if same key h.key_name then some h else rest

-- The switch; `PRESET_KEY_BOOL` leaves the field as it is where the text is neither of the two.
unfoldable pub new_value : {N : Type 0} → Library N → PresetKeyAction → List ℕ → Value N → Value N
new_value lib strdup value old = text value
new_value lib to_double value old = number (lib.strtod value)
new_value lib to_float value old = number (lib.strtof value)
new_value lib to_long value old = number (lib.strtol value)
new_value lib to_bool value old =
    if lib.strcasecmp_equal value (codes "true")
    then flag true
    else if lib.strcasecmp_equal value (codes "false")
    then flag false
    else old

unfoldable pub set_field :
    {N : Type 0} → Library N → PresetKeyHandler → List ℕ → Preset N → Preset N
set_field lib h value p = record p {
  value = store_at h.field (new_value lib h.action value (p.value h.field)) p.value;
  provided = if h.has_flag then store_at h.field true p.provided else p.provided;
}

abbrev pub is_strdup : PresetKeyAction → Bool
is_strdup strdup = true
is_strdup action = false

-- What is done with a key that has a handler; `none` is the result false.
unfoldable pub store_value :
    {N : Type 0} → Library N → Option PresetKeyHandler → List ℕ → Loader N → Option (Loader N)
store_value lib none value l = some l
store_value lib (some h) value l =
    let presets = update_last (set_field lib h value) l.presets in
    if is_strdup h.action
    then if lib.memory l.requests
      then some (record l { presets = presets; requests = l.requests + 1 })
      else none
    else some (record l { presets = presets })

-- A line with a key and a value.
unfoldable pub load_pair : {N : Type 0} → Library N → List ℕ → Loader N → Option (Loader N)
load_pair lib line l =
    let (key, value) = split_at b'=' (skip_byte b'=' line) in
    let known = find_handler lib.strcasecmp_equal (trim_whitespace key) key_handlers in
    if is_empty key || is_empty value
    then some l
    else store_value lib known (trim_whitespace value) l

-- The array grows where it is full.
unfoldable pub grow : {N : Type 0} → Library N → Loader N → Option (Loader N)
grow lib l =
    if length l.presets == l.capacity
    then if lib.memory l.requests
      then some (record l {
        presets = take l.capacity l.presets;
        capacity = l.capacity * 2;
        requests = l.requests + 1;
      })
      else none
    else some l

-- What a preset is after `memset`, with its name.
abbrev pub fresh_preset : {N : Type 0} → List ℕ → Preset N
fresh_preset name = record { name = name; value = λ f. cleared; provided = λ f. false }

-- A new preset in the next place of the array; `none` is a header without a closing bracket.
unfoldable pub add_preset :
    {N : Type 0} → Library N → Option (List ℕ) → Loader N → Option (Loader N)
add_preset lib none l = some (record l { current = false })
add_preset lib (some name) l =
    if lib.memory l.requests
    then some (record l {
      presets = l.presets ++ (fresh_preset (trim_whitespace name) ∷ []);
      current = true;
      requests = l.requests + 1;
    })
    else none

-- A header. `strlen("[preset:")` bytes are skipped.
unfoldable pub load_header : {N : Type 0} → Library N → List ℕ → Loader N → Option (Loader N)
load_header lib line l =
    if leb max_presets (length l.presets)
    then some (record l { current = false })
    else Option.bind (grow lib l) (add_preset lib (before b']' (drop 8 line)))

abbrev pub is_comment : List ℕ → Bool
is_comment [] = true
is_comment (c ∷ cs) = c == b'#' || c == b';'

abbrev pub is_header : List ℕ → Bool
is_header [] = false
is_header (c ∷ cs) = c == b'[' && strstr (c ∷ cs) (codes "preset:")

abbrev pub is_found : Option (List ℕ) → Bool
is_found none = false
is_found (some t) = true

-- The body of the loop, after `trim_whitespace`.
unfoldable pub load_trimmed : {N : Type 0} → Library N → List ℕ → Loader N → Option (Loader N)
load_trimmed lib line l =
    if is_comment line
    then some l
    else if is_header line
    then load_header lib line l
    else if l.current && is_found (before b'=' line)
    then load_pair lib line l
    else some l

unfoldable pub load_lines : {N : Type 0} → Library N → List (List ℕ) → Loader N → Option (Loader N)
load_lines lib [] l = some l
load_lines lib (line ∷ lines) l =
    Option.bind (load_trimmed lib (trim_whitespace line) l) (load_lines lib lines)

-- From the allocation of the array on, with the lines of an open file.
unfoldable pub load : {N : Type 0} → Library N → List (List ℕ) → Option (Loader N)
load lib lines =
    if lib.memory 0
    then load_lines lib lines (record { presets = []; current = false; capacity = 8; requests = 1 })
    else none
