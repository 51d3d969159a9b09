-- ===== src/PresetsLoader/Storing.antt =====
-- What one line with a key and a value stores.
use iq_tool.Prelude.{
  ℕ, ◌≡◌, refl, ap, sym, ◌∙◌, List, [], ◌∷◌, ◌++◌, true, false, some, append_assoc,
}
use iq_tool.Text.{
  is_empty, skip_spaces, cut_spaces, trim_whitespace, equal_folded, before, skip_byte, split_at,
}
use iq_tool.Text.Trimming.{cut_spaces-append, cut_spaces-newline, trim_whitespace-Tidy}
use iq_tool.PresetsLoader.Keys.{
  Field, description, target_rate, output_sample_format_name, gain, dc_block_enable,
  iq_correction_enable, agc_profile_str, agc_target, lowpass_cutoff_hz, highpass_cutoff_hz,
  pass_range_str, stopband_str, transition_width_hz, filter_taps, attenuation_db, filter_type_str,
  key_handlers,
}
use iq_tool.PresetsLoader.{
  Library, Loader, find_handler, store_value, load_pair, is_comment, is_header, is_found,
  load_trimmed,
}
use iq_tool.PresetsLoader.Printing.{documented, pair_line, PlainPair}

-- How the loop takes a line with this key apart.
abbrev KeyLine : Field → List ℕ → Type 0
KeyLine f rest =
    let key = (documented f).key_name in
    let line = key ++ (b'=' ∷ rest) in
    (find_handler equal_folded key key_handlers ≡ some (documented f))
    × ((trim_whitespace key ≡ key)
        × ((split_at b'=' (skip_byte b'=' line) ≡ (key, rest))
            × ((skip_spaces line ≡ line)
                × ((is_comment line ≡ false)
                    × ((is_header line ≡ false)
                        × ((is_found (before b'=' line) ≡ true) × (is_empty key ≡ false)))))))

key_line : (f : Field) (rest : List ℕ) → KeyLine f rest
unfolding find_handler equal_folded key_handlers trim_whitespace skip_spaces cut_spaces split_at
    skip_byte before
key_line description rest = (refl, (refl, (refl, (refl, (refl, (refl, (refl, refl)))))))
key_line target_rate rest = (refl, (refl, (refl, (refl, (refl, (refl, (refl, refl)))))))
key_line output_sample_format_name rest =
    (refl, (refl, (refl, (refl, (refl, (refl, (refl, refl)))))))
key_line gain rest = (refl, (refl, (refl, (refl, (refl, (refl, (refl, refl)))))))
key_line dc_block_enable rest = (refl, (refl, (refl, (refl, (refl, (refl, (refl, refl)))))))
key_line iq_correction_enable rest = (refl, (refl, (refl, (refl, (refl, (refl, (refl, refl)))))))
key_line agc_profile_str rest = (refl, (refl, (refl, (refl, (refl, (refl, (refl, refl)))))))
key_line agc_target rest = (refl, (refl, (refl, (refl, (refl, (refl, (refl, refl)))))))
key_line lowpass_cutoff_hz rest = (refl, (refl, (refl, (refl, (refl, (refl, (refl, refl)))))))
key_line highpass_cutoff_hz rest = (refl, (refl, (refl, (refl, (refl, (refl, (refl, refl)))))))
key_line pass_range_str rest = (refl, (refl, (refl, (refl, (refl, (refl, (refl, refl)))))))
key_line stopband_str rest = (refl, (refl, (refl, (refl, (refl, (refl, (refl, refl)))))))
key_line transition_width_hz rest = (refl, (refl, (refl, (refl, (refl, (refl, (refl, refl)))))))
key_line filter_taps rest = (refl, (refl, (refl, (refl, (refl, (refl, (refl, refl)))))))
key_line attenuation_db rest = (refl, (refl, (refl, (refl, (refl, (refl, (refl, refl)))))))
key_line filter_type_str rest = (refl, (refl, (refl, (refl, (refl, (refl, (refl, refl)))))))

-- The line without its newline.
trimmed_line :
    (f : Field) (v : List ℕ)
    → PlainPair (f, v)
    → trim_whitespace (pair_line f v) ≡ (documented f).key_name ++ (b'=' ∷ v)
unfolding trim_whitespace
trimmed_line f v p =
    let key = (documented f).key_name in
    let (_, (_, (_, (front, _)))) = key_line f (v ++ (10 ∷ [])) in
    ap cut_spaces (front ∙ sym (append_assoc key (b'=' ∷ v) (10 ∷ [])))
    ∙ cut_spaces-newline (key ++ (b'=' ∷ v))
    ∙ ap cut_spaces (sym (append_assoc key (b'=' ∷ []) v))
    ∙ cut_spaces-append (key ++ (b'=' ∷ [])) v p.tidy.back p.some_value
    ∙ append_assoc key (b'=' ∷ []) v

pub load_trimmed-pair_line :
    {N : Type 0} (lib : Library N) (f : Field) (v : List ℕ) (l : Loader N)
    → lib.strcasecmp_equal ≡ equal_folded
    → PlainPair (f, v)
    → l.current ≡ true
    → load_trimmed lib (trim_whitespace (pair_line f v)) l
      ≡ store_value lib (some (documented f)) v l
unfolding load_trimmed load_pair
load_trimmed-pair_line lib f v l posix p c =
    let (handled, (key, (parts, (_, (plain, (no_header, (has_equals, some_key))))))) =
      key_line f v in
    rw (trimmed_line f v p) (
      rw plain (
        rw no_header (
          rw c (
            rw has_equals (
              rw parts (
                rw some_key (
                  rw p.some_value (
                    rw key (rw posix (rw handled (rw (trim_whitespace-Tidy v p.tidy) refl)))))))))))
