-- ===== src/RingBuffer/Create.antt =====
-- What `ring_buffer_create` returns.
use iq_tool.Prelude.{ℕ, ◌≤◌, ◌<◌, ◌≡◌, refl, List, [], Bool, Option, none, some, arith, length}
use iq_tool.RingBuffer.{RingBuffer, create, get_size}
use iq_tool.RingBuffer.Contents.{contents}
use iq_tool.RingBuffer.Validity.{IsValid, max_object}
use iq_tool.RingBuffer.Traces.{empty_of_get_size}

create-some :
    (struct_block : Bool) (malloc : ℕ → Option (List ℕ)) (capacity : ℕ)
    → ((n : ℕ) (block : List ℕ) → malloc n ≡ some block → (length block ≡ n) × (n ≤ max_object))
    → 0 < capacity
    → (answer : Option (List ℕ)) → malloc capacity ≡ answer
    → (r : RingBuffer) → create struct_block malloc capacity ≡ some r
    → IsValid r × (get_size r ≡ 0) × (r.capacity ≡ capacity)
unfolding create get_size
create-some struct_block malloc capacity sized pos none m r e = absurd (ground arith)
create-some struct_block malloc capacity sized pos (some block) m r e =
    ground (arith, sized capacity block m)

-- A ring that `ring_buffer_create` returns is valid and empty and has the capacity asked for, if
-- `malloc` returns blocks of the size asked for, none larger than half the address space.
pub create_lem :
    (struct_block : Bool) (malloc : ℕ → Option (List ℕ)) (capacity : ℕ) (r : RingBuffer)
    → ((n : ℕ) (block : List ℕ) → malloc n ≡ some block → (length block ≡ n) × (n ≤ max_object))
    → 0 < capacity
    → create struct_block malloc capacity ≡ some r
    → IsValid r × (contents r ≡ []) × (r.capacity ≡ capacity)
create_lem struct_block malloc capacity r sized pos e =
    let (v, empty, same) = create-some struct_block malloc capacity sized pos _ refl r e in
    (v, empty_of_get_size r empty, same)
