-- ===== src/PresetsLoader/Lines.antt =====
-- What one line of a file that somebody has written adds.
use mathlib.Core.Option
use iq_tool.Prelude.{
  ℕ, ◌+◌, ◌*◌, ◌≤◌, ◌<◌, ◌≡◌, refl, ap, sym, ◌∙◌, List, [], ◌∷◌, ◌++◌, Bool, true, false, Option,
  none, some, arith, leb, ◌==◌, if◌then◌else◌, inl, inr, Bool-cases, ==→eq, ==→ne, length,
  append_assoc, take_all,
}
use iq_tool.Text.{
  cut_spaces, skip_spaces, trim_whitespace, equal_folded, before, codes, strstr, starts_with,
}
use iq_tool.Text.Trimming.{Tidy, cut_spaces-append, cut_spaces-newline, trim_whitespace-Tidy}
use iq_tool.PresetsLoader.Keys.{Field}
use iq_tool.PresetsLoader.{
  Preset, Library, Loader, max_presets, fresh_preset, update_last, set_field, is_strdup,
  store_value, grow, add_preset, load_header, load_trimmed, load_lines,
}
use iq_tool.PresetsLoader.Printing.{
  documented, header_line, pair_line, pair_lines, value_after, provided_after, AllPlain, no_pair,
  one_pair,
}
use iq_tool.PresetsLoader.Fields.{with_pair, set_field-documented}
use iq_tool.PresetsLoader.Storing.{load_trimmed-pair_line}

update_last-append :
    {A : Type 0} (f : A → A) (xs : List A) (x : A)
    → update_last f (xs ++ (x ∷ [])) ≡ xs ++ (f x ∷ [])
unfolding update_last
update_last-append f [] x = refl
update_last-append f (y ∷ []) x = refl
update_last-append f (y ∷ (z ∷ xs)) x = ap (λ t. y ∷ t) (update_last-append f (z ∷ xs) x)

-- The presets that are loaded from these lines on.
abbrev pub loaded : {N : Type 0} → Library N → List (List ℕ) → Loader N → Option (List (Preset N))
loaded lib lines l = Option.map (λ l. l.presets) (load_lines lib lines l)

-- The pairs of the last preset, and then the other lines.
abbrev pub with_pairs : {N : Type 0} → Library N → List (Field × List ℕ) → Preset N → Preset N
with_pairs lib pairs p = record p {
  value = λ f. value_after lib f (p.value f) pairs;
  provided = λ f. provided_after f (p.provided f) pairs;
}

module _ {N : Type 0} (lib : Library N) (posix : lib.strcasecmp_equal ≡ equal_folded)
    (memory : (n : ℕ) → lib.memory n ≡ true) where
  pub loaded_step :
      (line : List ℕ) (more : List (List ℕ)) (l l' : Loader N)
      → load_trimmed lib (trim_whitespace line) l ≡ some l'
      → loaded lib (line ∷ more) l ≡ loaded lib more l'
  unfolding load_lines Option.bind
  loaded_step line more l l' e = rw e refl

  stored :
      (f : Field) (v : List ℕ) (l : Loader N)
      → (r : ℕ) × (store_value lib (some (documented f)) v l
          ≡ some (record l {
            presets = update_last (set_field lib (documented f) v) l.presets;
            requests = r;
          }))
  unfolding store_value
  stored f v l = elim (Bool-cases (is_strdup (documented f).action)) [
    | inl e ↦ (l.requests + 1, rw e (rw (memory l.requests) refl))
    | inr e ↦ (l.requests, rw e refl)
  ]

  pub loaded-pair_lines :
      (pairs : List (Field × List ℕ)) (more : List (List ℕ)) (front : List (Preset N))
      (p : Preset N) (capacity requests : ℕ) (all : Option (List (Preset N)))
      → AllPlain pairs
      → ((r : ℕ)
          → loaded lib more (record {
            presets = front ++ (with_pairs lib pairs p ∷ []);
            current = true;
            capacity = capacity;
            requests = r;
          })
            ≡ all)
      → loaded lib (pair_lines pairs more) (record {
        presets = front ++ (p ∷ []);
        current = true;
        capacity = capacity;
        requests = requests;
      })
        ≡ all
  unfolding pair_lines value_after provided_after
  loaded-pair_lines [] more front p capacity requests all no_pair rest = rest requests
  loaded-pair_lines ((f, v) ∷ pairs) more front p capacity requests all (one_pair plain others)
        rest =
      let l : Loader N = record {
        presets = front ++ (p ∷ []);
        current = true;
        capacity = capacity;
        requests = requests;
      } in
      let (r, e) = stored f v l in
      loaded_step (pair_line f v) (pair_lines pairs more) l _
        (load_trimmed-pair_line lib f v l posix plain refl ∙ e)
      ∙ ap
          (λ ps.
            loaded lib (pair_lines pairs more)
              (record { presets = ps; current = true; capacity = capacity; requests = r }))
          (update_last-append (set_field lib (documented f) v) front p
            ∙ ap (λ q. front ++ (q ∷ [])) (set_field-documented lib f v p))
      ∙ loaded-pair_lines pairs more front (with_pair lib f v p) capacity r all others (λ k. rest k)

  header_trimmed :
      (name : List ℕ)
      → trim_whitespace (header_line name) ≡ codes "[preset:" ++ (name ++ (b']' ∷ []))
  unfolding trim_whitespace skip_spaces cut_spaces
  header_trimmed name =
      ap (λ t. cut_spaces (codes "[preset:" ++ t)) (sym (append_assoc name (b']' ∷ []) (10 ∷ [])))
      ∙ cut_spaces-newline (codes "[preset:" ++ (name ++ (b']' ∷ [])))
      ∙ cut_spaces-append (codes "[preset:" ++ name) (b']' ∷ []) refl refl

  before-bracket :
      (name : List ℕ) → before b']' name ≡ none → before b']' (name ++ (b']' ∷ [])) ≡ some name
  unfolding before
  before-bracket [] h = refl
  before-bracket (c ∷ name) h =
      first (c == b']') (before b']' name) (before b']' (name ++ (b']' ∷ []))) h
        (before-bracket name)
    where
      first :
          (b : Bool) (o o' : Option (List ℕ))
          → (if b then some [] else Option.map (λ t. c ∷ t) o) ≡ none
          → (o ≡ none → o' ≡ some name)
          → (if b then some [] else Option.map (λ t. c ∷ t) o') ≡ some (c ∷ name)
      first true o o' h k = cc
      first false none o' h k = ap (Option.map (λ t. c ∷ t)) (k refl)
      first false (some t) o' h k = cc

  grown :
      (l : Loader N)
      → 0 < l.capacity
      → length l.presets ≤ l.capacity
      → (capacity : ℕ) × (r : ℕ) × (grow lib l
          ≡ some (record l { capacity = capacity; requests = r }))
        × (length l.presets < capacity)
  unfolding grow
  grown l some_room fits = elim (Bool-cases (length l.presets == l.capacity)) [
    | inl e ↦
        let full = ==→eq (length l.presets) l.capacity e in
        (
          l.capacity * 2,
          l.requests + 1,
          rw e (
              rw (memory l.requests) (
                ap
                  (λ ps. some (record l {
                    presets = ps;
                    capacity = l.capacity * 2;
                    requests = l.requests + 1;
                  }))
                  (take_all l.capacity l.presets (omega arith)))),
          omega arith,
        )
    | inr e ↦
        (l.capacity, l.requests, rw e refl, omega (arith, ==→ne (length l.presets) l.capacity e))
  ]

  pub header_loaded :
      (name : List ℕ) (l : Loader N)
      → Tidy name
      → before b']' name ≡ none
      → length l.presets < max_presets
      → 0 < l.capacity
      → length l.presets ≤ l.capacity
      → (capacity : ℕ) × (r : ℕ) × (load_trimmed lib (trim_whitespace (header_line name)) l
          ≡ some (record {
            presets = l.presets ++ (fresh_preset name ∷ []);
            current = true;
            capacity = capacity;
            requests = r;
          }))
        × (length l.presets < capacity)
  unfolding load_trimmed load_header add_preset Option.bind strstr starts_with
  header_loaded name l tidy h room some_room fits =
      let (capacity, r, e, bound) = grown l some_room fits in
      let more : leb max_presets (length l.presets) ≡ false = ground arith in
      (
        capacity,
        r + 1,
        rw (header_trimmed name) (
            rw more (
              rw e (
                rw (before-bracket name h)
                  (rw (memory r) (rw (trim_whitespace-Tidy name tidy) refl))))),
        bound,
      )
