-- ===== src/Options/FilterChain.antt =====
-- `validate_filter_options` of src/config.c: the chain of filters. `strtof` (which also returns what
-- it leaves of the text), the tests and the operations on floats are parameters.
pub mod Requests
mod Tests
use mathlib.Core.Option
use iq_tool.Prelude.{
  ℕ, zero, suc, ◌+◌, ◌≤◌, ◌<◌, ◌≡◌, refl, ap, sym, ◌∙◌, List, [], ◌∷◌, ◌++◌, Bool, true, false, not,
  ◌&&◌, ◌||◌, Option, none, some, arith, ltb, ◌==◌, if◌then◌else◌, inl, inr, Bool-cases, length,
  take, append_assoc, append-nil, length-append,
}
use iq_tool.Text.{isspace, is_empty, skip_spaces}

-- `FilterType`, less `FILTER_TYPE_NONE`
pub data FilterType : Type 0 where
  lowpass : FilterType
  highpass : FilterType
  passband : FilterType
  stopband : FilterType

pub record FilterRequest (D : Type 0) : Type 0 where
  pub filter_type : FilterType
  pub freq1_hz : D
  pub freq2_hz : D

-- The arguments with one index; a frequency that is not positive is `none`.
pub record FilterArgs (D : Type 0) : Type 0 where
  pub lowpass_cutoff_hz_arg : Option D
  pub highpass_cutoff_hz_arg : Option D
  pub pass_range_str_arg : Option (List ℕ)
  pub stopband_str_arg : Option (List ℕ)

abbrev pub max_filter_chain : ℕ
max_filter_chain = 5

pub record Floats (D : Type 0) : Type 0 where
  pub strtof : List ℕ → D × List ℕ
  pub less_or_equal : D → D → Bool
  pub zero_hz : D
  pub bandwidth : D → D → D
  pub center : D → D → D

-- `sscanf` with "%127[^:]": at most so many bytes that are not the colon, and the rest.
unfoldable pub scan_until : (ℕ → Bool) → ℕ → List ℕ → List ℕ × List ℕ
scan_until ends zero text = ([], text)
scan_until ends (suc room) [] = ([], [])
scan_until ends (suc room) (c ∷ text) =
    let (token, rest) = scan_until ends room text in
    if ends c then ([], c ∷ text) else (c ∷ token, rest)

-- ":%127s" after it: the colon, spaces, and at most so many bytes that are not spaces.
unfoldable pub scan_end : List ℕ → Option (List ℕ)
scan_end [] = none
scan_end (c ∷ text) =
    let token = (scan_until isspace 127 (skip_spaces text)).0 in
    if c == b':' && not (is_empty token) then some token else none

module _ {D : Type 0} (floats : Floats D) where
  unfoldable pub parse_numbers : List ℕ → Option (List ℕ) → Option (D × D)
  parse_numbers start_buf none = none
  parse_numbers start_buf (some end_buf) =
      let (start_f, left1) = floats.strtof start_buf in
      let (end_f, left2) = floats.strtof end_buf in
      if is_empty left1 && is_empty left2
      then (if floats.less_or_equal end_f start_f then none else some (start_f, end_f))
      else none

  -- `parse_start_end_string`; `none` is the result false.
  unfoldable pub parse_start_end_string : List ℕ → Option (D × D)
  parse_start_end_string text =
      let (start_buf, rest) = scan_until (λ c. c == b':') 127 text in
      if is_empty start_buf then none else parse_numbers start_buf (scan_end rest)

  -- `add_filter_request`; the length of the list is `num_filter_requests`.
  unfoldable pub add_filter_request :
      FilterType → D → D → List (FilterRequest D) → List (FilterRequest D)
  add_filter_request type f1 f2 requests =
      if ltb (length requests) max_filter_chain
      then requests ++ (record { filter_type = type; freq1_hz = f1; freq2_hz = f2 } ∷ [])
      else requests

  unfoldable pub add_cutoff :
      FilterType → Option D → List (FilterRequest D) → List (FilterRequest D)
  add_cutoff type none requests = requests
  add_cutoff type (some f) requests = add_filter_request type f floats.zero_hz requests

  unfoldable pub add_parsed :
      FilterType → Option (D × D) → List (FilterRequest D) → Option (List (FilterRequest D))
  add_parsed type none requests = none
  add_parsed type (some (start_f, end_f)) requests = some (
      add_filter_request type (floats.center start_f end_f) (floats.bandwidth start_f end_f)
        requests)

  unfoldable pub add_range :
      FilterType → Option (List ℕ) → List (FilterRequest D) → Option (List (FilterRequest D))
  add_range type none requests = some requests
  add_range type (some text) requests = add_parsed type (parse_start_end_string text) requests

  -- The body of the loop, and the loop over the five indices.
  unfoldable pub add_filters :
      FilterArgs D → List (FilterRequest D) → Option (List (FilterRequest D))
  add_filters a requests =
      let cutoffs =
        add_cutoff highpass a.highpass_cutoff_hz_arg
          (add_cutoff lowpass a.lowpass_cutoff_hz_arg requests) in
      Option.bind (add_range passband a.pass_range_str_arg cutoffs)
        (add_range stopband a.stopband_str_arg)

  unfoldable pub filter_chain :
      List (FilterArgs D) → List (FilterRequest D) → Option (List (FilterRequest D))
  filter_chain [] requests = some requests
  filter_chain (a ∷ args) requests = Option.bind (add_filters a requests) (filter_chain args)
