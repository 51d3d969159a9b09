-- ===== src/Pipeline/Pool/Tests.antt =====
-- A division of the pool, and its theorem at it.
use iq_tool.Prelude.{◌+◌, ◌≤◌, ◌≡◌, ◌⊎◌, refl, inl, none, some, arith}
use iq_tool.Pipeline.Pool.{
  BufferSizes, buffer_sizes, pool_bytes, complex_sample_buffer_a, final_output_data, buffer_at,
  buffer_bytes,
}
use iq_tool.Pipeline.Pool.Disjoint.{buffers_apart}

-- 16-bit samples on both sides, and no resampling
abbrev sizes : BufferSizes
sizes = record {
  raw_input_bytes_per_chunk = 65536;
  complex_bytes_per_chunk = 132096;
  final_output_bytes_per_chunk = 66048;
}

sizes_accepted : buffer_sizes 16512 4 4 ≡ some sizes
unfolding buffer_sizes
sizes_accepted = refl

capacity_refused : buffer_sizes 1048577 4 4 ≡ none
unfolding buffer_sizes
capacity_refused = refl

buffers_apart_example :
    ((buffer_at sizes 3 final_output_data + buffer_bytes sizes final_output_data
        ≤ buffer_at sizes 4 complex_sample_buffer_a)
      ⊎ (buffer_at sizes 4 complex_sample_buffer_a + buffer_bytes sizes complex_sample_buffer_a
          ≤ buffer_at sizes 3 final_output_data))
    × (buffer_at sizes 3 final_output_data + buffer_bytes sizes final_output_data
        ≤ pool_bytes sizes)
buffers_apart_example =
    buffers_apart 16512 4 4 sizes 3 4 final_output_data complex_sample_buffer_a (omega arith)
      (omega arith) sizes_accepted (omega arith) (omega arith) (inl (omega arith))
