-- ===== src/Pipeline/Pool.antt =====
-- `_allocate_processing_buffers` of src/pipeline.c: how the one block of the pool is divided among
-- the 512 chunks. An address is the distance from the start of the block.
pub mod Disjoint
mod Tests
use iq_tool.Prelude.{ℕ, Option, none, some, ltb, if◌then◌else◌, add_size, mul_size}

-- `PIPELINE_NUM_CHUNKS`, `PIPELINE_CHUNK_BASE_SAMPLES`, `MAX_ALLOWED_FFT_BLOCK_SIZE`, and
-- `sizeof(complex_float_t)`
abbrev pub pipeline_num_chunks : ℕ
pipeline_num_chunks = 512

abbrev pub pipeline_chunk_base_samples : ℕ
pipeline_chunk_base_samples = 16384

abbrev pub max_allowed_fft_block_size : ℕ
max_allowed_fft_block_size = 1048576

abbrev pub complex_float_size : ℕ
complex_float_size = 8

-- The sizes of a chunk's buffers.
pub record BufferSizes : Type 0 where
  pub raw_input_bytes_per_chunk : ℕ
  pub complex_bytes_per_chunk : ℕ
  pub final_output_bytes_per_chunk : ℕ

-- From `required_capacity` on; `none` is the result false.
unfoldable pub buffer_sizes : ℕ → ℕ → ℕ → Option BufferSizes
buffer_sizes required_capacity input_bytes_per_sample_pair output_bytes_per_sample_pair =
    if ltb max_allowed_fft_block_size required_capacity
    then none
    else some (record {
      raw_input_bytes_per_chunk = mul_size pipeline_chunk_base_samples input_bytes_per_sample_pair;
      complex_bytes_per_chunk = mul_size required_capacity complex_float_size;
      final_output_bytes_per_chunk = mul_size required_capacity output_bytes_per_sample_pair;
    })

unfoldable pub total_bytes_per_chunk : BufferSizes → ℕ
total_bytes_per_chunk s =
    add_size (add_size s.raw_input_bytes_per_chunk (mul_size s.complex_bytes_per_chunk 2))
      s.final_output_bytes_per_chunk

-- The size that `malloc` is asked for.
unfoldable pub pool_bytes : BufferSizes → ℕ
pool_bytes s = mul_size pipeline_num_chunks (total_bytes_per_chunk s)

-- The buffers of a chunk.
pub data BufferKind : Type 0 where
  raw_input_data : BufferKind
  complex_sample_buffer_a : BufferKind
  complex_sample_buffer_b : BufferKind
  final_output_data : BufferKind

-- `chunk_base` and the pointers that the loop sets.
unfoldable pub chunk_base : BufferSizes → ℕ → ℕ
chunk_base s i = mul_size i (total_bytes_per_chunk s)

unfoldable pub buffer_at : BufferSizes → ℕ → BufferKind → ℕ
buffer_at s i raw_input_data = chunk_base s i
buffer_at s i complex_sample_buffer_a = add_size (chunk_base s i) s.raw_input_bytes_per_chunk
buffer_at s i complex_sample_buffer_b =
    add_size (add_size (chunk_base s i) s.raw_input_bytes_per_chunk) s.complex_bytes_per_chunk
buffer_at s i final_output_data =
    add_size (add_size (chunk_base s i) s.raw_input_bytes_per_chunk)
      (mul_size s.complex_bytes_per_chunk 2)

unfoldable pub buffer_bytes : BufferSizes → BufferKind → ℕ
buffer_bytes s raw_input_data = s.raw_input_bytes_per_chunk
buffer_bytes s complex_sample_buffer_a = s.complex_bytes_per_chunk
buffer_bytes s complex_sample_buffer_b = s.complex_bytes_per_chunk
buffer_bytes s final_output_data = s.final_output_bytes_per_chunk
