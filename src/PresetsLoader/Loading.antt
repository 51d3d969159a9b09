-- ===== src/PresetsLoader/Loading.antt =====
-- What the loader makes of a file that somebody has written.
use mathlib.Core.Option
use iq_tool.Prelude.{
  ℕ, ◌+◌, ◌≤◌, ◌<◌, ◌≡◌, refl, ap, sym, subst, ◌∙◌, List, [], ◌∷◌, ◌++◌, true, false, none, some,
  arith, length, map, append_assoc, append-nil, length-append,
}
use iq_tool.PresetsLoader.Keys.{
  Field, description, target_rate, output_sample_format_name, gain, dc_block_enable,
  iq_correction_enable, agc_profile_str, agc_target, lowpass_cutoff_hz, highpass_cutoff_hz,
  pass_range_str, stopband_str, transition_width_hz, filter_taps, attenuation_db, filter_type_str,
}
use iq_tool.Text.{codes, equal_folded, before}
use iq_tool.Text.Trimming.{Tidy}
use iq_tool.PresetsLoader.{Library, Loader, max_presets, fresh_preset, load_lines, load}
use iq_tool.PresetsLoader.Printing.{
  Written, documented, header_line, pair_line, pair_lines, print, file_of, preset_of, AllPlain,
  one_pair,
}
use iq_tool.PresetsLoader.Reading.{
  max_line_length, load_file, on_one_line, Readable, on_one_line-append, nothing-Readable,
  line-Readable,
}
use iq_tool.PresetsLoader.Lines.{loaded, loaded_step, loaded-pair_lines, header_loaded}

key_one_line :
    (f : Field) (v : List ℕ) → on_one_line ((documented f).key_name ++ (b'=' ∷ v)) ≡ on_one_line v
unfolding on_one_line
key_one_line description v = refl
key_one_line target_rate v = refl
key_one_line output_sample_format_name v = refl
key_one_line gain v = refl
key_one_line dc_block_enable v = refl
key_one_line iq_correction_enable v = refl
key_one_line agc_profile_str v = refl
key_one_line agc_target v = refl
key_one_line lowpass_cutoff_hz v = refl
key_one_line highpass_cutoff_hz v = refl
key_one_line pass_range_str v = refl
key_one_line stopband_str v = refl
key_one_line transition_width_hz v = refl
key_one_line filter_taps v = refl
key_one_line attenuation_db v = refl
key_one_line filter_type_str v = refl

pairs-Readable :
    (pairs : List (Field × List ℕ)) (more : List (List ℕ))
    → AllPlain pairs
    → Readable more
    → Readable (pair_lines pairs more)
unfolding pair_lines
pairs-Readable [] more plain r = r
pairs-Readable ((f, v) ∷ pairs) more (one_pair plain others) r =
    let xs = (documented f).key_name ++ (b'=' ∷ v) in
    let e : pair_line f v ≡ xs ++ (10 ∷ []) =
      sym (append_assoc (documented f).key_name (b'=' ∷ v) (10 ∷ [])) in
    subst (λ line. Readable (line ∷ pair_lines pairs more)) (sym e)
      (line-Readable xs (pair_lines pairs more) (key_one_line f v ∙ plain.one_line)
        (omega (arith, ap length e, length-append xs (10 ∷ []), plain.short))
        (pairs-Readable pairs more others r))

-- Presets that stand for themselves in the file.
pub data WellWritten : List Written → Type 0 where
  no_preset : WellWritten []
  one_preset :
      {w : Written} {ws : List Written}
      → Tidy w.name
      → before b']' w.name ≡ none
      → on_one_line w.name ≡ true
      → length (header_line w.name) < max_line_length
      → AllPlain w.pairs
      → WellWritten ws
      → WellWritten (w ∷ ws)

print-Readable : (ws : List Written) → WellWritten ws → Readable (print ws)
unfolding print on_one_line
print-Readable [] no_preset = nothing-Readable
print-Readable (w ∷ ws) (one_preset tidy h line short plain others) =
    let xs = codes "[preset:" ++ (w.name ++ (b']' ∷ [])) in
    let e : header_line w.name ≡ xs ++ (10 ∷ []) =
      ap (λ t. codes "[preset:" ++ t) (sym (append_assoc w.name (b']' ∷ []) (10 ∷ []))) in
    subst (λ line. Readable (line ∷ pair_lines w.pairs (print ws))) (sym e)
      (line-Readable xs (pair_lines w.pairs (print ws))
        (on_one_line-append w.name (b']' ∷ []) ∙ rw line refl)
        (omega (arith, ap length e, length-append xs (10 ∷ []), short))
        (pairs-Readable w.pairs (print ws) plain (print-Readable ws others)))

module _ {N : Type 0} (lib : Library N) (posix : lib.strcasecmp_equal ≡ equal_folded)
    (memory : (n : ℕ) → lib.memory n ≡ true) where
  print-loaded :
      (ws : List Written) (l : Loader N)
      → WellWritten ws
      → length l.presets + length ws ≤ max_presets
      → 0 < l.capacity
      → length l.presets ≤ l.capacity
      → loaded lib (print ws) l ≡ some (l.presets ++ map (preset_of lib) ws)
  unfolding print load_lines
  print-loaded [] l no_preset room some_room fits = ap some (sym (append-nil l.presets))
  print-loaded (w ∷ ws) l (one_preset tidy h _ _ plain others) room some_room fits =
      let (capacity, r, e, bound) =
        header_loaded lib posix memory w.name l tidy h (omega arith) some_room fits in
      let p = preset_of lib w in
      let longer = length-append l.presets (p ∷ []) in
      loaded_step lib posix memory (header_line w.name) (pair_lines w.pairs (print ws)) l _ e
      ∙ loaded-pair_lines lib posix memory w.pairs (print ws) l.presets (fresh_preset w.name)
          capacity r (some ((l.presets ++ (p ∷ [])) ++ map (preset_of lib) ws)) plain
          (λ k.
            print-loaded ws
              (record {
                presets = l.presets ++ (p ∷ []);
                current = true;
                capacity = capacity;
                requests = k;
              })
              others (omega (arith, longer)) (omega arith) (omega (arith, longer)))
      ∙ ap some (append_assoc l.presets (p ∷ []) (map (preset_of lib) ws))

  -- Where strcasecmp compares without regard to ASCII case and the arena has memory, a file with at
  -- most 128 presets in plain writing, whose lines fit into the buffer of fgets, is loaded as it is
  -- written: each preset with its name, and for
  -- each of its fields what the last of its lines for it says, read as the field's type asks, and
  -- whether it counts as provided. (A truth value that is neither true nor false leaves what was
  -- there.)
  pub load-print :
      (ws : List Written)
      → WellWritten ws
      → length ws ≤ max_presets
      → Option.map (λ l. l.presets) (load_file lib (file_of ws)) ≡ some (map (preset_of lib) ws)
  unfolding load load_file
  load-print ws plain room =
      rw (print-Readable ws plain (length (file_of ws)) (omega arith), memory 0)
        (print-loaded ws (record { presets = []; current = false; capacity = 8; requests = 1 })
          plain (omega arith) (omega arith) (omega arith))
