-- ===== src/RingBuffer/Fetch.antt =====
-- A read takes from the front of what the ring holds.
use iq_tool.Prelude.{
  ℕ, ◌+◌, ◌-◌, ◌%◌, ◌≤◌, ◌<◌, ◌≡◌, sym, ap, ap₂, ◌∙◌, ◌≡⟨◌⟩◌, ◌∎, ◌++◌, arith, length, take, drop,
  get_or, length-take, length-drop, get_or-take, get_or-drop, get_or-append, tabulate_of_get,
  tabulate_cong, append_cancel_take, append_cancel_drop, length-append, add_size, sub_size,
}
use iq_tool.Prelude.Cyclic.{index, window, window-append}
use iq_tool.RingBuffer.{RingBuffer, first_chunk, get_size, copy_out, fetch}
use iq_tool.RingBuffer.Validity.{
  IsValid, get_size_lem, get_size-lt-capacity, add_size-mod, first_chunk_lem, advance-IsValid,
}
use iq_tool.RingBuffer.Contents.{contents, view}

module _ {r : RingBuffer} (n : ℕ) (v : IsValid r) (held : n ≤ get_size r) where
  length-fetch : length (fetch r n) ≡ n
  unfolding fetch copy_out
  length-fetch =
      let first = first_chunk r r.read_pos n in
      let second = sub_size n first in
      ground (
        arith,
        get_size-lt-capacity v,
        first_chunk_lem r.read_pos n v v.read_in,
        length-take first (drop r.read_pos r.buffer),
        length-drop r.read_pos r.buffer,
        length-take second r.buffer,
        length-append (take first (drop r.read_pos r.buffer)) (take second r.buffer),
      )

  get_or-fetch :
      (k : ℕ)
      → k < n
      → get_or (fetch r n) k 0 ≡ get_or r.buffer (index r.capacity (r.read_pos + k)) 0
  unfolding fetch copy_out
  get_or-fetch k h =
      let first = first_chunk r r.read_pos n in
      let second = sub_size n first in
      ground (
        arith,
        get_size-lt-capacity v,
        first_chunk_lem r.read_pos n v v.read_in,
        length-take first (drop r.read_pos r.buffer),
        length-drop r.read_pos r.buffer,
        get_or-append (take first (drop r.read_pos r.buffer)) (take second r.buffer) k 0,
        get_or-take first (drop r.read_pos r.buffer) k 0,
        get_or-drop r.read_pos r.buffer k 0,
        get_or-take second r.buffer (k - first) 0,
      )

  fetch_lem : fetch r n ≡ window r.buffer r.capacity r.read_pos n
  fetch_lem = tabulate_of_get (fetch r n) n 0 (sym length-fetch) ∙ tabulate_cong _ _ n get_or-fetch

  unfoldable pub advanced : RingBuffer
  advanced = record r { read_pos = add_size r.read_pos n % r.capacity }

  get_size-advanced : get_size advanced ≡ get_size r - n
  unfolding advanced
  get_size-advanced = ground (
    arith,
    get_size-lt-capacity v,
    get_size_lem v,
    get_size_lem (advance-IsValid n v (omega (arith, get_size-lt-capacity v))),
    add_size-mod r.read_pos n v v.read_in,
  )

  -- What is fetched, and what is left, make up what was held.
  contents-split : contents r ≡ fetch r n ++ contents advanced
  unfolding advanced
  contents-split =
      contents r
      ≡⟨ ap (window r.buffer r.capacity r.read_pos) parts ⟩
        window r.buffer r.capacity r.read_pos (n + get_size advanced)
      ≡⟨ window-append r.buffer r.capacity r.read_pos n (get_size advanced) v.read_in
          (omega (arith, parts, get_size-lt-capacity v)) ⟩
        window r.buffer r.capacity r.read_pos n
        ++ window r.buffer r.capacity ((r.read_pos + n) % r.capacity) (get_size advanced)
      ≡⟨ ap₂ ◌++◌ (sym fetch_lem)
          (ap (λ p. window r.buffer r.capacity (p % r.capacity) (get_size advanced)) start) ⟩
        fetch r n ++ contents advanced ∎
    where
      parts : get_size r ≡ n + get_size advanced
      parts = omega (arith, get_size-advanced)

      start : r.read_pos + n ≡ add_size r.read_pos n
      start = omega (arith, get_size-lt-capacity v)

  pub take-contents : take n (contents r) ≡ fetch r n
  take-contents = rw contents-split (
      ap (λ k. take k (fetch r n ++ contents advanced)) (sym length-fetch)
      ∙ append_cancel_take (fetch r n) (contents advanced))

  drop-contents : drop n (contents r) ≡ contents advanced
  drop-contents = rw contents-split (
      ap (λ k. drop k (fetch r n ++ contents advanced)) (sym length-fetch)
      ∙ append_cancel_drop (fetch r n) (contents advanced))

  pub view-advanced : view advanced ≡ record (view r) { bytes = drop n (contents r) }
  unfolding advanced
  view-advanced = ap (λ b. record (view r) { bytes = b }) (sym drop-contents)
