-- ===== src/Options/Outputs/Chosen.antt =====
-- Which output formats are accepted.
use Prim.Native.String.{String}
use mathlib.Core.Bool.{true≢false}
use mathlib.Core.Option.{none-ne-some, some-injective}
use iq_tool.Prelude.{
  ℕ, ◌≡◌, ◌≢◌, ◌↔◌, ◌⊎◌, refl, ap, sym, ◌∙◌, Bool, true, false, not, ◌&&◌, ◌||◌, Option, none, some,
  ◌==◌, if◌then◌else◌, inl, inr, Bool-cases, ==→eq, ==→ne,
}
use iq_tool.Formats.{
  Format, format_unknown, u8, s8, u16, s16, u32, s32, f32, cu8, cs8, cu16, cs16, cs24, cu32, cs32,
  cf32, sc16q11, id, of_id, get_format_from_string,
}
use iq_tool.Options.Outputs.{
  OutputType, raw, wav_rf64, is_wav, OutputOptions, target_rate, is_none, output_type_of,
  format_name, validate_output,
}
use iq_tool.Options.Outputs.Accepted.{suits, wav_only, accepted_iff}

-- There is an explicit rate, or one of a preset, or no rate is needed.
abbrev pub HasRate : OutputOptions → Type 0
HasRate c =
    ((r : ℕ) × (c.user_defined_target_rate ≡ some r))
    ⊎ (((r : ℕ) × (c.preset_rate ≡ some r)) ⊎ (c.no_resample ≡ true))

-- The name is the one that is given, or cs16 for an output file if none is.
abbrev pub IsNamed : OutputOptions → String → Type 0
IsNamed c name =
    (c.output_sample_format_name ≡ some name)
    ⊎ ((c.output_sample_format_name ≡ none) × ((c.output_filename_given ≡ true) × (name ≡ "cs16")))

-- A file in a WAV container holds one of two formats, and another one any that is known.
abbrev pub Fits : OutputType → Format → Type 0
Fits type format =
    (format ≢ format_unknown) × ((is_wav type ≡ false) ⊎ ((format ≡ cs16) ⊎ (format ≡ cu8)))

-- An output that is called wav gets a WAV container, unless it is also called raw, and every other
-- one, wav-rf64 included, none.
abbrev pub container : (String → String → Bool) → String → OutputType
container same m = if not (same m "raw") && same m "wav" then wav_rf64 else raw

output_type_of-container :
    (same : String → String → Bool) (m : String) → output_type_of same m ≡ container same m
unfolding output_type_of
output_type_of-container same m = elim (Bool-cases (same m "raw")) [
  | inl e ↦ rw e refl
  | inr e ↦ rw e (elim (Bool-cases (same m "wav")) [
    | inl f ↦ rw f refl
    | inr f ↦ rw f (elim (Bool-cases (same m "stdout")) [ inl g ↦ rw g refl | inr g ↦ rw g refl ])
  ])
]

rate_iff :
    (user preset : Option ℕ) (b : Bool)
    → ((is_none (elim user [ none ↦ preset | some r ↦ some r ]) && not b) ≡ false)
      ↔ (((r : ℕ) × (user ≡ some r)) ⊎ (((r : ℕ) × (preset ≡ some r)) ⊎ (b ≡ true)))
rate_iff (some r) preset b = (λ e. inl (r, refl), λ t. refl)
rate_iff none (some r) b = (λ e. inr (inl (r, refl)), λ t. refl)
rate_iff none none true = (λ e. inr (inr refl), λ t. refl)
rate_iff none none false = (
  λ e. absurd (true≢false e),
  λ t. elim t [
    | inl u ↦ absurd (none-ne-some _ u.1)
    | inr u ↦ elim u [ inl v ↦ absurd (none-ne-some _ v.1) | inr v ↦ absurd (true≢false (sym v)) ]
  ],
)

name_iff :
    (given : Option String) (b : Bool) (name : String)
    → (format_name given b ≡ some name)
      ↔ ((given ≡ some name) ⊎ ((given ≡ none) × ((b ≡ true) × (name ≡ "cs16"))))
unfolding format_name
name_iff (some n) b name =
    (λ e. inl e, λ t. elim t [ inl e ↦ e | inr u ↦ absurd (none-ne-some _ (sym u.0)) ])
name_iff none true name = (
  λ e. inr (refl, (refl, sym (some-injective _ _ e))),
  λ t. elim t [ inl e ↦ absurd (none-ne-some _ e) | inr u ↦ ap some (sym u.1.1) ],
)
name_iff none false name = (
  λ e. absurd (none-ne-some _ e),
  λ t. elim t [ inl e ↦ absurd (none-ne-some _ e) | inr u ↦ absurd (true≢false (sym u.1.0)) ],
)

id-of_id : (f : Format) → of_id (id f) ≡ some f
unfolding id of_id
id-of_id format_unknown = refl
id-of_id u8 = refl
id-of_id s8 = refl
id-of_id u16 = refl
id-of_id s16 = refl
id-of_id u32 = refl
id-of_id s32 = refl
id-of_id f32 = refl
id-of_id cu8 = refl
id-of_id cs8 = refl
id-of_id cu16 = refl
id-of_id cs16 = refl
id-of_id cs24 = refl
id-of_id cu32 = refl
id-of_id cs32 = refl
id-of_id cf32 = refl
id-of_id sc16q11 = refl

same_format : (f g : Format) → (id f == id g) ≡ true → f ≡ g
same_format f g e =
    some-injective _ _ (sym (id-of_id f) ∙ ap of_id (==→eq (id f) (id g) e) ∙ id-of_id g)

other_format : (f g : Format) → (id f == id g) ≡ false → f ≢ g
other_format f g e h = ==→ne (id f) (id g) e (ap id h)

suits-Fits : (type : OutputType) (f : Format) → (suits (is_wav type) f ≡ true) ↔ Fits type f
suits-Fits type f = elim (Bool-cases (id f == id format_unknown)) [
  | inl a ↦ rw a (λ e. absurd (true≢false (sym e)), λ t. absurd (t.0 (same_format f _ a)))
  | inr a ↦
      let known = other_format f format_unknown a in
      rw a (elim (Bool-cases (id f == id cs16)) [
        | inl b ↦ (λ e. (known, inr (inl (same_format f cs16 b))), λ t. rw b (any (is_wav type)))
        | inr b ↦ elim (Bool-cases (id f == id cu8)) [
          | inl d ↦
              (λ e. (known, inr (inr (same_format f cu8 d))), λ t. rw (b, d) (any (is_wav type)))
          | inr d ↦
              rw (b, d)
                (
                  λ e. (known, inl (no_wav (is_wav type) e)),
                  λ t. elim t.1 [
                    | inl h ↦ rw h refl
                    | inr h ↦ elim h [
                      | inl h ↦ absurd (other_format f cs16 b h)
                      | inr h ↦ absurd (other_format f cu8 d h)
                    ]
                  ],
                )
        ]
      ])
]
  where
    any : (b : Bool) → (not b || true) ≡ true
    any true = refl
    any false = refl

    no_wav : (b : Bool) → (not b || false) ≡ true → b ≡ false
    no_wav true e = sym e
    no_wav false e = refl

-- A format is accepted, with the container of the output's name, exactly if there is a rate or none
-- is needed, the format is the one that is named, or cs16 for an output file if none is named, it is
-- known, and it is cs16 or cu8 where the container is WAV.
pub validate_output_iff :
    (same : String → String → Bool) (c : OutputOptions) (format : Format)
    → (validate_output same c ≡ some (container same c.output_module_str, format)) ↔ (
        HasRate c
        × ((name : String) × IsNamed c name
            × ((get_format_from_string same (some name) ≡ format)
                × Fits (container same c.output_module_str) format)))
unfolding target_rate
validate_output_iff same c format =
    let m = c.output_module_str in
    let rate = rate_iff c.user_defined_target_rate c.preset_rate c.no_resample in
    let named = λ (n : String). name_iff c.output_sample_format_name c.output_filename_given n in
    let fits = suits-Fits (output_type_of same m) format in
    let (to, from) = accepted_iff same c format in
    rw (sym (output_type_of-container same m)) (
      λ e.
          let (r, (n, a, (g, s))) = to e in
          (rate.0 r, (n, (named n).0 a, (g, fits.0 (rw (wav_only same m) s)))),
      λ (r, (n, a, (g, s))).
          from (rate.1 r, (n, (named n).1 a, (g, rw⁻¹ (wav_only same m) (fits.1 s)))),
    )
