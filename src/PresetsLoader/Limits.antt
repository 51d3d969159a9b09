-- ===== src/PresetsLoader/Limits.antt =====
-- The array of presets, whatever the file holds.
use mathlib.Core.Option
use iq_tool.Prelude.{
  ℕ, suc, ◌+◌, ◌≤◌, ◌<◌, ◌≡◌, refl, ap, List, [], ◌∷◌, Bool, true, false, ◌&&◌, ◌||◌, Option, none,
  some, arith, leb, ◌==◌, if◌then◌else◌, ==→ne, leb→gt, length, drop, length-append, length-take,
}
use iq_tool.Text.{trim_whitespace, is_empty, before, split_at, skip_byte}
use iq_tool.PresetsLoader.Keys.{PresetKeyHandler, key_handlers}
use iq_tool.PresetsLoader.{
  Preset, Library, Loader, max_presets, fresh_preset, update_last, set_field, is_strdup,
  find_handler, is_comment, is_header, is_found, store_value, load_pair, grow, add_preset,
  load_header, load_trimmed, load_lines, load,
}

-- The presets lie inside the array, and there are at most 128.
pub record IsValid {N : Type 0} (l : Loader N) : Type 0 where
  pub bounded : length l.presets ≤ max_presets
  pub inside : length l.presets ≤ l.capacity
  pub some_room : 0 < l.capacity

-- What holds of the loader, unless the load has failed.
pub data Unless {N : Type 0} (P : Loader N → Type 0) : Option (Loader N) → Type 0 where
  failed : Unless P none
  fine : {l : Loader N} → P l → Unless P (some l)

Unless-bind :
    {N : Type 0} (P Q : Loader N → Type 0) (o : Option (Loader N))
    (next : Loader N → Option (Loader N))
    → Unless P o
    → ((l : Loader N) → P l → Unless Q (next l))
    → Unless Q (Option.bind o next)
unfolding Option.bind
Unless-bind P Q none next failed later = failed
Unless-bind P Q (some l) next (fine p) later = later l p

Unless-if :
    {N : Type 0} (P : Loader N → Type 0) (b : Bool) (o o' : Option (Loader N))
    → (b ≡ true → Unless P o)
    → (b ≡ false → Unless P o')
    → Unless P (if b then o else o')
Unless-if P true o o' p q = p refl
Unless-if P false o o' p q = q refl

length-update_last : {A : Type 0} (f : A → A) (xs : List A) → length (update_last f xs) ≡ length xs
unfolding update_last
length-update_last f [] = refl
length-update_last f (x ∷ []) = refl
length-update_last f (x ∷ (y ∷ xs)) = ap suc (length-update_last f (y ∷ xs))

module _ {N : Type 0} (lib : Library N) where
  updated :
      (f : Preset N → Preset N) (l : Loader N) (r : ℕ)
      → IsValid l
      → IsValid (record l { presets = update_last f l.presets; requests = r })
  updated f l r v =
      let same = length-update_last f l.presets in
      record {
        bounded = omega (arith, same, v.bounded);
        inside = omega (arith, same, v.inside);
        some_room = v.some_room;
      }

  store_value-IsValid :
      (known : Option PresetKeyHandler) (value : List ℕ) (l : Loader N)
      → IsValid l
      → Unless IsValid (store_value lib known value l)
  unfolding store_value
  store_value-IsValid none value l v = fine v
  store_value-IsValid (some h) value l v =
      let change = set_field lib h value in
      Unless-if IsValid (is_strdup h.action) _ _
        (λ e.
          Unless-if IsValid (lib.memory l.requests) _ _
            (λ e. fine (updated change l (l.requests + 1) v)) (λ e. failed))
        (λ e. fine (updated change l l.requests v))

  load_pair-IsValid :
      (line : List ℕ) (l : Loader N) → IsValid l → Unless IsValid (load_pair lib line l)
  unfolding load_pair
  load_pair-IsValid line l v =
      let (key, value) = split_at b'=' (skip_byte b'=' line) in
      let known = find_handler lib.strcasecmp_equal (trim_whitespace key) key_handlers in
      let stored = store_value lib known (trim_whitespace value) l in
      Unless-if IsValid (is_empty key || is_empty value) (some l) stored (λ e. fine v)
        (λ e. store_value-IsValid known (trim_whitespace value) l v)

  -- After the growth there is a place for one more.
  record Roomy (l : Loader N) : Type 0 where
    bounded : length l.presets < max_presets
    inside : length l.presets < l.capacity

  grow-Roomy :
      (l : Loader N) → IsValid l → length l.presets < max_presets → Unless Roomy (grow lib l)
  unfolding grow
  grow-Roomy l v room =
      Unless-if Roomy (length l.presets == l.capacity) _ _
        (λ e.
          Unless-if Roomy (lib.memory l.requests) _ _
            (λ m.
              let shorter = length-take l.capacity l.presets in
              let positive = v.some_room in
              fine (record {
                bounded = omega (arith, shorter, room);
                inside = omega (arith, shorter, positive);
              }))
            (λ m. failed))
        (λ e.
          let short = v.inside in
          fine (record {
            bounded = room;
            inside = omega (arith, short, ==→ne (length l.presets) l.capacity e);
          }))

  add_preset-IsValid :
      (name : Option (List ℕ)) (l : Loader N) → Roomy l → Unless IsValid (add_preset lib name l)
  unfolding add_preset
  add_preset-IsValid none l r =
      let below = r.bounded in
      let fits = r.inside in
      fine (record {
        bounded = omega (arith, below);
        inside = omega (arith, fits);
        some_room = omega (arith, fits);
      })
  add_preset-IsValid (some name) l r =
      let below = r.bounded in
      let fits = r.inside in
      Unless-if IsValid (lib.memory l.requests) _ _
        (λ e.
          let longer = length-append l.presets (fresh_preset (trim_whitespace name) ∷ []) in
          fine (record {
            bounded = omega (arith, below, longer);
            inside = omega (arith, fits, longer);
            some_room = omega (arith, fits);
          }))
        (λ e. failed)

  load_header-IsValid :
      (line : List ℕ) (l : Loader N) → IsValid l → Unless IsValid (load_header lib line l)
  unfolding load_header
  load_header-IsValid line l v =
      let name = before b']' (drop 8 line) in
      let added = Option.bind (grow lib l) (add_preset lib name) in
      let bounded = v.bounded in
      let inside = v.inside in
      let positive = v.some_room in
      Unless-if IsValid (leb max_presets (length l.presets)) (some (record l { current = false }))
        added (λ e. fine (record { bounded = bounded; inside = inside; some_room = positive }))
        (λ e.
          Unless-bind Roomy IsValid (grow lib l) (add_preset lib name)
            (grow-Roomy l v (leb→gt max_presets (length l.presets) e))
            (λ l' r. add_preset-IsValid name l' r))

  load_trimmed-IsValid :
      (line : List ℕ) (l : Loader N) → IsValid l → Unless IsValid (load_trimmed lib line l)
  unfolding load_trimmed
  load_trimmed-IsValid line l v =
      let pair =
        if l.current && is_found (before b'=' line) then load_pair lib line l else some l in
      let other = if is_header line then load_header lib line l else pair in
      Unless-if IsValid (is_comment line) (some l) other (λ e. fine v)
        (λ e.
          Unless-if IsValid (is_header line) (load_header lib line l) pair
            (λ f. load_header-IsValid line l v)
            (λ f.
              Unless-if IsValid (l.current && is_found (before b'=' line)) (load_pair lib line l)
                (some l) (λ g. load_pair-IsValid line l v) (λ g. fine v)))

  load_lines-IsValid :
      (lines : List (List ℕ)) (l : Loader N) → IsValid l → Unless IsValid (load_lines lib lines l)
  unfolding load_lines
  load_lines-IsValid [] l v = fine v
  load_lines-IsValid (line ∷ lines) l v =
      Unless-bind IsValid IsValid (load_trimmed lib (trim_whitespace line) l) (load_lines lib lines)
        (load_trimmed-IsValid (trim_whitespace line) l v) (λ l' v'. load_lines-IsValid lines l' v')

  -- Whatever the file holds and whether or not the arena has memory, the load fails or ends with at
  -- most 128 presets, all inside the array.
  pub load-IsValid : (lines : List (List ℕ)) → Unless IsValid (load lib lines)
  unfolding load
  load-IsValid lines =
      let start : Loader N = record { presets = []; current = false; capacity = 8; requests = 1 } in
      Unless-if IsValid (lib.memory 0) (load_lines lib lines start) none
        (λ e.
          load_lines-IsValid lines start
            (record { bounded = omega arith; inside = omega arith; some_room = omega arith }))
        (λ e. failed)
