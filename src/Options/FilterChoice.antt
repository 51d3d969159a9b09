-- ===== src/Options/FilterChoice.antt =====
-- `validate_option_combinations` of src/config.c: the implementation of the filter. `same` tells
-- whether `strcasecmp` returns 0.
use Prim.Native.String.{String}
use mathlib.Core.Bool.{true≢false}
use mathlib.Core.Option.{none-ne-some}
use iq_tool.Prelude.{
  ℕ, zero, suc, ◌+◌, ◌-◌, ◌*◌, ◌%◌, ◌^◌, ◌≤◌, ◌<◌, ◌≡◌, ◌↔◌, refl, sym, ◌∙◌, Bool, true, false, not,
  ◌&&◌, Option, none, some, arith, ltb, ◌==◌, if◌then◌else◌, inl, inr, Bool-cases,
}
use iq_tool.Options.PowersOfTwo.{is_power_of_two, is_power_of_two_iff}

-- An `int`.
pub data ℤ : Type 0 where
  pos : ℕ → ℤ
  negsuc : ℕ → ℤ

-- `filter_type_request`
pub data FilterTypeRequest : Type 0 where
  auto : FilterTypeRequest
  fir : FilterTypeRequest
  fft : FilterTypeRequest

abbrev pub is_fir : FilterTypeRequest → Bool
is_fir fir = true
is_fir auto = false
is_fir fft = false

abbrev pub is_fft : FilterTypeRequest → Bool
is_fft fft = true
is_fft auto = false
is_fft fir = false

-- The type that is asked for; `none` is the result false, here and below.
unfoldable pub requested_type :
    (String → String → Bool) → Option String → FilterTypeRequest → Option FilterTypeRequest
requested_type same none request = some request
requested_type same (some name) request =
    if same name "fir" then some fir else if same name "fft" then some fft else none

-- The size of the transform, 0 where it is not given; `given`: a type was asked for.
unfoldable pub check_fft_size : Bool → FilterTypeRequest → ℤ → Option FilterTypeRequest
check_fft_size given request (pos zero) = some request
check_fft_size given request (negsuc n) = none
check_fft_size given request (pos (suc n)) =
    if given && is_fir request then none else if is_power_of_two (suc n) then some fft else none

-- The number of taps that the filter will have, and whether the transform has room for them.
unfoldable pub fits_taps : FilterTypeRequest → ℤ → ℤ → Bool
fits_taps request (pos (suc taps)) (pos (suc size)) =
    let adjusted_taps = if suc taps % 2 == 0 then suc taps + 1 else suc taps in
    let required_fft_size = (adjusted_taps - 1) * 2 in
    if is_fft request then not (ltb (suc size) required_fft_size) else true
fits_taps request _ _ = true

unfoldable pub check_taps : ℤ → ℤ → Option FilterTypeRequest → Option FilterTypeRequest
check_taps taps size none = none
check_taps taps size (some request) = if fits_taps request taps size then some request else none

abbrev pub is_given : Option String → Bool
is_given none = false
is_given (some name) = true

unfoldable pub sized_type : Bool → ℤ → ℤ → Option FilterTypeRequest → Option FilterTypeRequest
sized_type given taps size none = none
sized_type given taps size (some request) = check_taps taps size (check_fft_size given request size)

-- The part of `validate_option_combinations`, with the type that is left.
unfoldable pub validate_filter_type :
    (String → String → Bool) → Option String → FilterTypeRequest → ℤ → ℤ → Option FilterTypeRequest
validate_filter_type same name request taps size =
    sized_type (is_given name) taps size (requested_type same name request)

-- Whether the user has left the choice of the type open, or asked for a transform.
unfoldable pub allows_fft : (String → String → Bool) → Option String → Bool
allows_fft same none = true
allows_fft same (some name) = not (same name "fir") && same name "fft"

-- What `taps` of them, one more if that is even, need.
abbrev pub smallest_fft : ℕ → ℕ
smallest_fft taps = if taps % 2 == 0 then 2 * taps else 2 * (taps - 1)

taps_fit :
    (taps size : ℕ)
    → (fits_taps fft (pos taps) (pos (suc size)) ≡ true) ↔ (smallest_fft taps ≤ suc size)
unfolding fits_taps
taps_fit zero size = (λ e. omega arith, λ e. refl)
taps_fit (suc taps) size = (λ e. ground arith, λ e. ground arith)

sized :
    (given : Bool) (request : FilterTypeRequest) (taps size : ℕ)
    → (given && is_fir request) ≡ false
    → suc size < 2 ^ 31
    → (sized_type given (pos taps) (pos (suc size)) (some request) ≡ some fft)
      ↔ (((k : ℕ) × (suc size ≡ 2 ^ k)) × (smallest_fft taps ≤ suc size))
unfolding sized_type check_fft_size check_taps
sized given request taps size e h =
    let power = is_power_of_two_iff (suc size) (omega arith) h in
    let fit = taps_fit taps size in
    let different = λ (b : Bool) (x : b ≡ true) (y : b ≡ false). true≢false (sym x ∙ y) in
    rw e (elim (Bool-cases (is_power_of_two (suc size))) [
      | inl eb ↦ rw eb (elim (Bool-cases (fits_taps fft (pos taps) (pos (suc size)))) [
        | inl ec ↦ rw ec (λ u. (power.0 eb, fit.0 ec), λ u. refl)
        | inr ec ↦ rw ec (
          λ u. absurd (none-ne-some fft u),
          λ (u, v). absurd (different (fits_taps fft (pos taps) (pos (suc size))) (fit.1 v) ec),
        )
      ])
      | inr eb ↦ rw eb (
        λ u. absurd (none-ne-some fft u),
        λ (u, v). absurd (different (is_power_of_two (suc size)) (power.1 u) eb),
      )
    ])

-- With a size of the transform that is not 0, below 2 ^ 31, and a number of taps that is not
-- negative, the options are accepted, and a transform is chosen, exactly if the user has left the type
-- open or asked for a transform, the size is a power of two, and it is at least what the taps need
-- (one more tap is counted where their number is even).
pub validate_filter_type_iff :
    (same : String → String → Bool) (name : Option String) (request : FilterTypeRequest)
    (taps size : ℕ)
    → suc size < 2 ^ 31
    → (validate_filter_type same name request (pos taps) (pos (suc size)) ≡ some fft) ↔ (
        (allows_fft same name ≡ true)
        × (((k : ℕ) × (suc size ≡ 2 ^ k)) × (smallest_fft taps ≤ suc size)))
unfolding validate_filter_type requested_type allows_fft sized_type check_fft_size check_taps
validate_filter_type_iff same none request taps size h =
    let s = sized false request taps size refl h in (λ u. (refl, s.0 u), λ u. s.1 u.1)
validate_filter_type_iff same (some name) request taps size h =
    elim (Bool-cases (same name "fir")) [
      | inl f ↦ rw f (λ u. absurd (none-ne-some fft u), λ u. absurd (true≢false (sym u.0)))
      | inr f ↦ rw f (elim (Bool-cases (same name "fft")) [
        | inl g ↦ let s = sized true fft taps size refl h in rw g (λ u. (refl, s.0 u), λ u. s.1 u.1)
        | inr g ↦ rw g (λ u. absurd (none-ne-some fft u), λ u. absurd (true≢false (sym u.0)))
      ])
    ]
