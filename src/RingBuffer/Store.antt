-- ===== src/RingBuffer/Store.antt =====
-- A write appends to what the ring holds.
use iq_tool.Prelude.{
  ℕ, ◌+◌, ◌-◌, ◌%◌, ◌≤◌, ◌<◌, ◌≡◌, refl, sym, ap, ap₂, ◌∙◌, ◌≡⟨◌⟩◌, ◌∎, List, ◌++◌, arith, ltb,
  if◌then◌else◌, length, take, drop, copy_at, get_or, length-take, length-drop, length-copy_at,
  get_or-copy_at, get_or-take, get_or-drop, tabulate_of_get, tabulate_cong, min,
}
use iq_tool.Prelude.Cyclic.{index, window, window-append, window_cong, mod-eq-index}
use iq_tool.RingBuffer.{RingBuffer, copy_in, store, get_size}
use iq_tool.RingBuffer.Validity.{
  IsValid, get_size_lem, get_size-lt-capacity, add_size-mod, first_chunk_lem, store-IsValid,
}
use iq_tool.RingBuffer.Contents.{contents}

-- What a block holds at `i` after the copies of a write at `pos`.
get_or-copy_in :
    (block : List ℕ) (pos : ℕ) (source : List ℕ) (first second i : ℕ)
    → i < length block
    → pos + first ≤ length block
    → second ≤ pos
    → first + second ≤ length source
    → get_or (copy_in block pos source first second) i 0 ≡ (
        if ltb i second
        then get_or source (first + i) 0
        else if ltb i pos
        then get_or block i 0
        else if ltb i (pos + first)
        then get_or source (i - pos) 0
        else get_or block i 0)
unfolding copy_in
get_or-copy_in block pos source first second i hi hf hs hl =
    let once = copy_at block pos (take first source) in
    let tail = take second (drop first source) in
    ground (
      arith,
      get_or-copy_at block pos (take first source) i 0,
      get_or-copy_at once 0 tail i 0,
      length-copy_at block pos (take first source),
      length-take first source,
      length-take second (drop first source),
      length-drop first source,
      get_or-take first source (i - pos) 0,
      get_or-take second (drop first source) (i - 0) 0,
      get_or-drop first source (i - 0) 0,
    )

-- The same where the copies are split at the end of the block.
get_or-copy_in_split :
    (block : List ℕ) (pos : ℕ) (source : List ℕ) (n cap i : ℕ)
    → i < cap
    → cap ≡ length block
    → pos < cap
    → n ≤ cap
    → n ≤ length source
    → get_or (copy_in block pos source (min n (cap - pos)) (n - (cap - pos))) i 0 ≡ (
        if ltb (i + cap) (pos + n)
        then get_or source (i + cap - pos) 0
        else if ltb i pos
        then get_or block i 0
        else if ltb i (pos + n)
        then get_or source (i - pos) 0
        else get_or block i 0)
get_or-copy_in_split block pos source n cap i hi hc hp hn hl =
    ground (arith, get_or-copy_in block pos source (min n (cap - pos)) (n - (cap - pos)) i)

-- The write position is the end of what is held.
write_pos_lem :
    {r : RingBuffer} → IsValid r → index r.capacity (r.read_pos + get_size r) ≡ r.write_pos
write_pos_lem {r} v = ground (arith, get_size_lem v)

module _ {r : RingBuffer} (source : List ℕ) (n : ℕ) (v : IsValid r) (enough : n ≤ length source)
    (fits : get_size r + n < r.capacity) where
  get_size-store : get_size (store r source n) ≡ get_size r + n
  unfolding store
  get_size-store = ground (
    arith,
    get_size_lem (store-IsValid source n v (omega arith)),
    get_size_lem v,
    add_size-mod r.write_pos n v v.write_in,
  )

  -- What the block holds at `i` after a write, in one case for each part of it.
  get_or-store :
      (i : ℕ)
      → i < r.capacity
      → get_or (store r source n).buffer i 0 ≡ (
          if ltb (i + r.capacity) (r.write_pos + n)
          then get_or source (i + r.capacity - r.write_pos) 0
          else if ltb i r.write_pos
          then get_or r.buffer i 0
          else if ltb i (r.write_pos + n)
          then get_or source (i - r.write_pos) 0
          else get_or r.buffer i 0)
  unfolding store
  get_or-store i h = rw ((first_chunk_lem r.write_pos n v v.write_in (omega arith)).1) (
      rw ((first_chunk_lem r.write_pos n v v.write_in (omega arith)).0) (
        get_or-copy_in_split r.buffer r.write_pos source n r.capacity i h (sym v.storage) v.write_in
          (omega arith) enough))

  -- The bytes held before keep their places, and the new ones follow them.
  store_old :
      (k : ℕ)
      → k < get_size r
      → get_or (store r source n).buffer (index r.capacity (r.read_pos + k)) 0
        ≡ get_or r.buffer (index r.capacity (r.read_pos + k)) 0
  store_old k h = ground (arith, get_size_lem v, get_or-store (index r.capacity (r.read_pos + k)))

  store_new :
      (k : ℕ)
      → k < n
      → get_or (store r source n).buffer (index r.capacity (r.write_pos + k)) 0 ≡ get_or source k 0
  store_new k h = ground (arith, get_size_lem v, get_or-store (index r.capacity (r.write_pos + k)))

  store_new_window : window (store r source n).buffer r.capacity r.write_pos n ≡ take n source
  store_new_window =
      tabulate_cong _ _ n (λ k h. store_new k h ∙ sym (get_or-take n source k 0 h))
      ∙ sym (tabulate_of_get (take n source) n 0 (omega (arith, length-take n source)))

  store_shape :
      contents (store r source n)
      ≡ window (store r source n).buffer r.capacity r.read_pos (get_size (store r source n))
  unfolding store
  store_shape = refl

  -- A write appends the bytes that it takes.
  pub contents-store : contents (store r source n) ≡ contents r ++ take n source
  contents-store =
      contents (store r source n)
      ≡⟨ store_shape ⟩ window block r.capacity r.read_pos (get_size (store r source n))
      ≡⟨ ap (window block r.capacity r.read_pos) get_size-store ⟩
        window block r.capacity r.read_pos (get_size r + n)
      ≡⟨ window-append block r.capacity r.read_pos (get_size r) n v.read_in (omega arith) ⟩
        window block r.capacity r.read_pos (get_size r)
        ++ window block r.capacity ((r.read_pos + get_size r) % r.capacity) n
      ≡⟨ ap₂ ◌++◌ (window_cong block r.buffer r.capacity r.read_pos (get_size r) store_old)
          (ap (λ p. window block r.capacity p n) start ∙ store_new_window) ⟩
        contents r ++ take n source ∎
    where
      block : List ℕ
      block = (store r source n).buffer

      start : (r.read_pos + get_size r) % r.capacity ≡ r.write_pos
      start =
          mod-eq-index (r.read_pos + get_size r) r.capacity (omega (arith, get_size-lt-capacity v))
          ∙ write_pos_lem v
