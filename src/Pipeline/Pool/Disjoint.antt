-- ===== src/Pipeline/Pool/Disjoint.antt =====
-- No two buffers of the pool overlap, and none leaves it.
use native.Mathlib.Nat.{mul_comm, mul-le-mul}
use iq_tool.Prelude.{
  ℕ, ap, sym, inl, inr, ◌∙◌, ◌+◌, ◌*◌, ◌^◌, ◌≤◌, ◌<◌, ◌≡◌, ◌≢◌, ◌⊎◌, some, arith, mul_size,
}
use iq_tool.Pipeline.Pool.{
  BufferSizes, buffer_sizes, total_bytes_per_chunk, pool_bytes, BufferKind, raw_input_data,
  complex_sample_buffer_a, complex_sample_buffer_b, final_output_data, chunk_base, buffer_at,
  buffer_bytes,
}

mul_mono : (a b c : ℕ) → a ≤ b → a * c ≤ b * c
mul_mono a b c h = grind arith

-- The sizes that are accepted are far from wrapping.
unfoldable pub total : BufferSizes → ℕ
total s =
    s.raw_input_bytes_per_chunk + (s.complex_bytes_per_chunk * 2 + s.final_output_bytes_per_chunk)

sizes-lt :
    (capacity input output : ℕ) (s : BufferSizes)
    → input ≤ 16
    → output ≤ 16
    → buffer_sizes capacity input output ≡ some s
    → total s ≤ 2 ^ 26
unfolding total buffer_sizes
sizes-lt capacity input output s hi ho e =
    let a : output * capacity ≤ 16 * capacity = mul_mono output 16 capacity ho in
    let b : output * capacity ≡ capacity * output = mul_comm output capacity in ground arith

total_lem : (s : BufferSizes) → total s ≤ 2 ^ 26 → total_bytes_per_chunk s ≡ total s
unfolding total total_bytes_per_chunk
total_lem s small = omega arith

base_bound : (s : BufferSizes) (i : ℕ) → total s ≤ 2 ^ 26 → i ≤ 512 → i * total s ≤ 512 * 2 ^ 26
base_bound s i small h = mul-le-mul h small

chunk_base_lem :
    (s : BufferSizes) (i : ℕ) → total s ≤ 2 ^ 26 → i ≤ 512 → chunk_base s i ≡ i * total s
unfolding chunk_base
chunk_base_lem s i small h =
    let bound = base_bound s i small h in ap (λ t. mul_size i t) (total_lem s small) ∙ omega arith

-- The buffers of a chunk, one after the other.
unfoldable pub offset : BufferSizes → BufferKind → ℕ
offset s raw_input_data = 0
offset s complex_sample_buffer_a = s.raw_input_bytes_per_chunk
offset s complex_sample_buffer_b = s.raw_input_bytes_per_chunk + s.complex_bytes_per_chunk
offset s final_output_data = s.raw_input_bytes_per_chunk + s.complex_bytes_per_chunk * 2

buffer_at_lem :
    (s : BufferSizes) (i : ℕ) (k : BufferKind)
    → total s ≤ 2 ^ 26
    → i < 512
    → (buffer_at s i k ≡ i * total s + offset s k) × (offset s k + buffer_bytes s k ≤ total s)
unfolding total buffer_at offset buffer_bytes
buffer_at_lem s i raw_input_data small h =
    let b = chunk_base_lem s i small (omega arith) in (omega (arith, b), omega arith)
buffer_at_lem s i complex_sample_buffer_a small h =
    let b = chunk_base_lem s i small (omega arith) in
    let bound = base_bound s i small (omega arith) in (omega (arith, b, bound), omega arith)
buffer_at_lem s i complex_sample_buffer_b small h =
    let b = chunk_base_lem s i small (omega arith) in
    let bound = base_bound s i small (omega arith) in (omega (arith, b, bound), omega arith)
buffer_at_lem s i final_output_data small h =
    let b = chunk_base_lem s i small (omega arith) in
    let bound = base_bound s i small (omega arith) in (omega (arith, b, bound), omega arith)

-- A buffer of an earlier chunk ends before the buffers of a later one.
later_chunk :
    (s : BufferSizes) (i j : ℕ) (k l : BufferKind)
    → total s ≤ 2 ^ 26
    → i < j
    → j < 512
    → buffer_at s i k + buffer_bytes s k ≤ buffer_at s j l
later_chunk s i j k l small h hj =
    let a = buffer_at_lem s i k small (omega arith) in
    let b = buffer_at_lem s j l small hj in
    let step : (i + 1) * total s ≤ j * total s = mul_mono (i + 1) j (total s) (omega arith) in
    let next : (i + 1) * total s ≡ i * total s + total s = grind arith in
    omega (arith, a.0, a.1, b.0, step, next)

-- The buffers of one chunk.
same_chunk :
    (s : BufferSizes) (k l : BufferKind)
    → k ≢ l
    → (offset s k + buffer_bytes s k ≤ offset s l) ⊎ (offset s l + buffer_bytes s l ≤ offset s k)
unfolding offset buffer_bytes
same_chunk s k l h = ground arith

compare_cases : (i j : ℕ) → (i < j) ⊎ ((j < i) ⊎ (i ≡ j))
compare_cases i j = omega arith

-- Each buffer ends inside the block.
inside_pool :
    (s : BufferSizes) (i : ℕ) (k : BufferKind)
    → total s ≤ 2 ^ 26
    → i < 512
    → buffer_at s i k + buffer_bytes s k ≤ pool_bytes s
unfolding pool_bytes
inside_pool s i k small h =
    let a = buffer_at_lem s i k small h in
    let step : (i + 1) * total s ≤ 512 * total s = mul_mono (i + 1) 512 (total s) (omega arith) in
    let next : (i + 1) * total s ≡ i * total s + total s = grind arith in
    let whole = total_lem s small in omega (arith, a.0, a.1, step, next, whole)

-- Different buffers of the same chunk lie apart.
one_chunk :
    (s : BufferSizes) (i j : ℕ) (k l : BufferKind)
    → total s ≤ 2 ^ 26
    → i < 512
    → i ≡ j
    → (i ≢ j) ⊎ (k ≢ l)
    → (buffer_at s i k + buffer_bytes s k ≤ buffer_at s j l)
      ⊎ (buffer_at s j l + buffer_bytes s l ≤ buffer_at s i k)
one_chunk s i j k l small h e (inl d) = elim (d e) [ ]
one_chunk s i j k l small h e (inr d) =
    let a = buffer_at_lem s i k small h in
    let b = buffer_at_lem s i l small h in
    let same : buffer_at s j l ≡ buffer_at s i l = ap (λ n. buffer_at s n l) (sym e) in
    elim (same_chunk s k l d) [
      | inl t ↦ inl (omega (arith, a.0, b.0, same, t))
      | inr t ↦ inr (omega (arith, a.0, b.0, same, t))
    ]

-- With at most 16 bytes a pair on both sides, and a capacity that is accepted, any two different
-- buffers of the 512 chunks lie apart, and each ends inside the block that malloc is asked for: no
-- size and no address wraps.
pub buffers_apart :
    (capacity input output : ℕ) (s : BufferSizes) (i j : ℕ) (k l : BufferKind)
    → input ≤ 16
    → output ≤ 16
    → buffer_sizes capacity input output ≡ some s
    → i < 512
    → j < 512
    → (i ≢ j) ⊎ (k ≢ l)
    → ((buffer_at s i k + buffer_bytes s k ≤ buffer_at s j l)
        ⊎ (buffer_at s j l + buffer_bytes s l ≤ buffer_at s i k))
      × (buffer_at s i k + buffer_bytes s k ≤ pool_bytes s)
buffers_apart capacity input output s i j k l hi ho e li lj d =
    let small = sizes-lt capacity input output s hi ho e in
    (
      elim (compare_cases i j) [
        | inl h ↦ inl (later_chunk s i j k l small h lj)
        | inr (inl h) ↦ inr (later_chunk s j i l k small h li)
        | inr (inr h) ↦ one_chunk s i j k l small li h d
      ],
      inside_pool s i k small li,
    )
