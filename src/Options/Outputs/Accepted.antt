-- ===== src/Options/Outputs/Accepted.antt =====
-- What the last steps of the check of the output accept, as the code tests it.
use Prim.Native.String.{String}
use mathlib.Core.Bool.{true≢false}
use mathlib.Core.Option.{none-ne-some, some-injective}
use iq_tool.Prelude.{
  ◌≡◌, ◌↔◌, refl, ap, subst, ◌∙◌, Bool, true, false, not, ◌&&◌, ◌||◌, Option, none, some, arith,
  ◌==◌, if◌then◌else◌, inl, inr, Bool-cases,
}
use iq_tool.Formats.{Format, format_unknown, cu8, cs16, id, get_format_from_string}
use iq_tool.Options.Outputs.{
  OutputType, is_wav, OutputOptions, target_rate, is_none, output_type_of, format_name,
  check_format, named_format, validate_output,
}

-- The test of the last step.
abbrev pub suits : Bool → Format → Bool
suits only_wav format =
    not (id format == id format_unknown)
    && (not only_wav || (id format == id cs16 || id format == id cu8))

pub wav_only :
    (same : String → String → Bool) (m : String)
    → is_wav (output_type_of same m) ≡ (not (same m "raw") && same m "wav")
unfolding output_type_of
wav_only same m = elim (Bool-cases (same m "raw")) [
  | inl e ↦ rw e refl
  | inr e ↦ rw e (elim (Bool-cases (same m "wav")) [
    | inl f ↦ rw f refl
    | inr f ↦ rw f (elim (Bool-cases (same m "stdout")) [ inl g ↦ rw g refl | inr g ↦ rw g refl ])
  ])
]

check_format-suits :
    (type : OutputType) (format : Format)
    → suits (is_wav type) format ≡ true
    → check_format type format ≡ some (type, format)
unfolding check_format
check_format-suits type format h =
    let known : (id format == id format_unknown) ≡ false = ground arith in
    let fits : (is_wav type && not (id format == id cs16 || id format == id cu8)) ≡ false =
      ground arith in
    rw known (rw fits refl)

suits-check_format :
    (type : OutputType) (format chosen : Format)
    → check_format type format ≡ some (type, chosen)
    → (format ≡ chosen) × (suits (is_wav type) format ≡ true)
unfolding check_format
suits-check_format type format chosen e =
    accepted (id format == id format_unknown) (is_wav type)
      (id format == id cs16 || id format == id cu8) e
  where
    accepted :
        (a b c : Bool)
        → let result : Option (OutputType × Format) = some (type, format) in
          (if a then none else if b && not c then none else result) ≡ some (type, chosen)
          → (format ≡ chosen) × ((not a && (not b || c)) ≡ true)
    accepted true b c e = absurd (none-ne-some _ e)
    accepted false true true e = (ap (λ t. t.1) (some-injective _ _ e), refl)
    accepted false true false e = absurd (none-ne-some _ e)
    accepted false false c e = (ap (λ t. t.1) (some-injective _ _ e), refl)

named_format_iff :
    (same : String → String → Bool) (type : OutputType) (name : Option String) (format : Format)
    → (named_format same type name ≡ some (type, format)) ↔ (
        (n : String) × (name ≡ some n)
        × ((get_format_from_string same (some n) ≡ format) × (suits (is_wav type) format ≡ true)))
unfolding named_format
named_format_iff same type none format =
    (λ e. absurd (none-ne-some _ e), λ t. absurd (none-ne-some _ t.1))
named_format_iff same type (some name) format = (
  λ e.
      let (f, s) = suits-check_format type (get_format_from_string same (some name)) format e in
      (name, refl, (f, subst (λ k. suits (is_wav type) k ≡ true) f s)),
  λ (n, e, (f, s)).
      let g : get_format_from_string same (some name) ≡ format =
        ap (get_format_from_string same) e ∙ f in
      ap (check_format type) g ∙ check_format-suits type format s,
)

pub accepted_iff :
    (same : String → String → Bool) (c : OutputOptions) (format : Format)
    → (validate_output same c ≡ some (output_type_of same c.output_module_str, format)) ↔ (
        ((is_none (target_rate c) && not c.no_resample) ≡ false)
        × ((name : String) × (format_name c.output_sample_format_name c.output_filename_given
              ≡ some name)
            × ((get_format_from_string same (some name) ≡ format)
                × (suits
                      (not (same c.output_module_str "raw") && same c.output_module_str "wav")
                      format
                    ≡ true))))
unfolding validate_output
accepted_iff same c format =
    let type = output_type_of same c.output_module_str in
    let name = format_name c.output_sample_format_name c.output_filename_given in
    let named = named_format_iff same type name format in
    rw⁻¹ (wav_only same c.output_module_str)
      (elim (Bool-cases (is_none (target_rate c) && not c.no_resample)) [
        | inl e ↦ rw e (λ u. absurd (none-ne-some _ u), λ u. absurd (true≢false u.0))
        | inr e ↦ rw e (λ u. (refl, named.0 u), λ u. named.1 u.1)
      ])
