-- ===== src/PresetsLoader/Fields.antt =====
-- What a handler changes in a preset, field by field.
use iq_tool.Prelude.{
  ℕ, ◌≡◌, refl, ap, ap₂, sym, ◌∙◌, fun_ext, arith, List, [], ◌∷◌, Bool, true, ◌&&◌, ◌==◌,
  if◌then◌else◌, inl, inr, Bool-cases, ==→eq, zero, suc,
}
use iq_tool.PresetsLoader.Keys.{
  Field, description, target_rate, output_sample_format_name, gain, dc_block_enable,
  iq_correction_enable, agc_profile_str, agc_target, lowpass_cutoff_hz, highpass_cutoff_hz,
  pass_range_str, stopband_str, transition_width_hz, filter_taps, attenuation_db, filter_type_str,
  offset,
}
use iq_tool.PresetsLoader.{Preset, Library, store_at, new_value, set_field}
use iq_tool.PresetsLoader.Printing.{documented}

nth_field : ℕ → List Field → Field
nth_field n [] = description
nth_field zero (f ∷ fs) = f
nth_field (suc n) (f ∷ fs) = nth_field n fs

abbrev at_offset : ℕ → Field
at_offset n = nth_field n (
    description ∷ target_rate ∷ output_sample_format_name ∷ gain ∷ dc_block_enable
    ∷ iq_correction_enable ∷ agc_profile_str ∷ agc_target ∷ lowpass_cutoff_hz ∷ highpass_cutoff_hz
    ∷ pass_range_str ∷ stopband_str ∷ transition_width_hz ∷ filter_taps ∷ attenuation_db
    ∷ filter_type_str ∷ [])

at_offset-offset : (f : Field) → at_offset (offset f) ≡ f
unfolding nth_field
at_offset-offset description = refl
at_offset-offset target_rate = refl
at_offset-offset output_sample_format_name = refl
at_offset-offset gain = refl
at_offset-offset dc_block_enable = refl
at_offset-offset iq_correction_enable = refl
at_offset-offset agc_profile_str = refl
at_offset-offset agc_target = refl
at_offset-offset lowpass_cutoff_hz = refl
at_offset-offset highpass_cutoff_hz = refl
at_offset-offset pass_range_str = refl
at_offset-offset stopband_str = refl
at_offset-offset transition_width_hz = refl
at_offset-offset filter_taps = refl
at_offset-offset attenuation_db = refl
at_offset-offset filter_type_str = refl

same_field : (f g : Field) → (offset f == offset g) ≡ true → f ≡ g
same_field f g e =
    sym (at_offset-offset f) ∙ ap at_offset (==→eq (offset f) (offset g) e) ∙ at_offset-offset g

field-documented : (f : Field) → (documented f).field ≡ f
field-documented description = refl
field-documented target_rate = refl
field-documented output_sample_format_name = refl
field-documented gain = refl
field-documented dc_block_enable = refl
field-documented iq_correction_enable = refl
field-documented agc_profile_str = refl
field-documented agc_target = refl
field-documented lowpass_cutoff_hz = refl
field-documented highpass_cutoff_hz = refl
field-documented pass_range_str = refl
field-documented stopband_str = refl
field-documented transition_width_hz = refl
field-documented filter_taps = refl
field-documented attenuation_db = refl
field-documented filter_type_str = refl

-- The field of the handler, and no other one.
abbrev pub with_pair : {N : Type 0} → Library N → Field → List ℕ → Preset N → Preset N
with_pair lib f v p = record p {
  value = λ g.
      if offset g == offset f then new_value lib (documented g).action v (p.value g) else p.value g;
  provided = λ g. if offset g == offset f && (documented g).has_flag then true else p.provided g;
}

value_lem :
    {N : Type 0} (lib : Library N) (f g : Field) (v : List ℕ) (p : Preset N)
    → store_at f (new_value lib (documented f).action v (p.value f)) p.value g ≡ (
        if offset g == offset f
        then new_value lib (documented g).action v (p.value g)
        else p.value g)
unfolding store_at
value_lem lib f g v p = elim (Bool-cases (offset g == offset f)) [
  | inl e ↦
      rw e (ap (λ k. new_value lib (documented k).action v (p.value k)) (sym (same_field g f e)))
  | inr e ↦ rw e refl
]

flag_lem :
    (f g : Field) (b : Bool) (old : Field → Bool)
    → (if b then store_at f true old else old) g
      ≡ (if offset g == offset f && b then true else old g)
unfolding store_at
flag_lem f g b old = ground arith

provided_lem :
    (f g : Field) (old : Field → Bool)
    → (if (documented f).has_flag then store_at f true old else old) g
      ≡ (if offset g == offset f && (documented g).has_flag then true else old g)
provided_lem f g old =
    flag_lem f g (documented f).has_flag old ∙ elim (Bool-cases (offset g == offset f)) [
      | inl e ↦
          rw e (ap (λ k. if (documented k).has_flag then true else old g) (sym (same_field g f e)))
      | inr e ↦ rw e refl
    ]

pub set_field-documented :
    {N : Type 0} (lib : Library N) (f : Field) (v : List ℕ) (p : Preset N)
    → set_field lib (documented f) v p ≡ with_pair lib f v p
unfolding set_field
set_field-documented lib f v p = rw (field-documented f) (
    ap₂ (λ a b. record p { value = a; provided = b }) (fun_ext (λ g. value_lem lib f g v p))
      (fun_ext (λ g. provided_lem f g p.provided)))
