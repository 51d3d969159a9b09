-- ===== src/SdrPacket/WriteLaws.antt =====
-- A sequence of writes puts their bytes one after the other, as far as there is room.
use iq_tool.Prelude.{
  ℕ, zero, suc, ◌-◌, ◌≡◌, refl, sym, ap, ap₂, ◌∙◌, subst, inl, inr, List, [], ◌∷◌, ◌++◌, Bool, true,
  false, arith, leb, Bool-cases, length, take, min, append-nil, append_assoc, length-append,
  length-take, take_all, take-min, take-nil,
}
use iq_tool.RingBuffer.{RingBuffer, write}
use iq_tool.RingBuffer.Contents.{contents, view}
use iq_tool.RingBuffer.Fifo
use iq_tool.RingBuffer.Fifo.{Fifo}
use iq_tool.RingBuffer.Refines.{write_refines}
use iq_tool.RingBuffer.Validity.{IsValid, write-IsValid}
use iq_tool.SdrPacket.Writing.{write_whole, write_parts}

-- The bytes that a ring still takes.
abbrev pub room : RingBuffer → ℕ
room r = r.capacity - 1 - length (contents r)

abbrev pub flat : List (List ℕ) → List ℕ
flat [] = []
flat (bytes ∷ parts) = bytes ++ flat parts

take-append_nil : (n : ℕ) (ys : List ℕ) → take n ys ≡ take n [] ++ take (n - 0) ys
take-append_nil n ys = rw take-nil (ap (λ k. take k ys) e)
  where
    e : n ≡ n - 0
    e = omega arith

take-append : (n : ℕ) (xs ys : List ℕ) → take n (xs ++ ys) ≡ take n xs ++ take (n - length xs) ys
take-append n [] ys = take-append_nil n ys
take-append zero (x ∷ xs) ys = ap (λ k. take k ys) e
  where
    e : 0 ≡ 0 - suc (length xs)
    e = omega arith
take-append (suc n) (x ∷ xs) ys =
    ap (λ t. x ∷ t) (take-append n xs ys ∙ ap (λ k. take n xs ++ take k ys) e)
  where
    e : n - length xs ≡ suc n - suc (length xs)
    e = omega arith

-- What a sequence of writes did: whether all of `bytes` went in, and what the ring holds.
pub record Stored (r : RingBuffer) (bytes : List ℕ) (out : Bool × RingBuffer) : Type 0 where
  pub whole : out.0 ≡ leb (length bytes) (room r)
  pub held : contents out.1 ≡ contents r ++ take (room r) bytes
  pub valid : IsValid out.1
  pub limit : out.1.capacity ≡ r.capacity
  pub closed : out.1.end_of_stream ≡ r.end_of_stream
  pub stopped : out.1.shutting_down ≡ r.shutting_down

-- A write takes as many bytes as there is room for.
pub write_count :
    {r : RingBuffer} (bytes : List ℕ) → IsValid r → (write r bytes).0 ≡ min (length bytes) (room r)
unfolding Fifo.put
write_count {r} bytes v = ap (λ (t : ℕ × Fifo). t.0) (write_refines bytes v)

pub write_whole-Stored :
    {r : RingBuffer} (bytes : List ℕ) → IsValid r → Stored r bytes (write_whole r bytes)
unfolding write_whole Fifo.put
write_whole-Stored {r} bytes v = record {
  whole = ground (arith, write_count bytes v);
  held =
      ap (λ (t : ℕ × Fifo). t.1.bytes) e
      ∙ ap (λ k. contents r ++ take k bytes) swapped
      ∙ ap (λ t. contents r ++ t) (take-min (room r) bytes);
  valid = write-IsValid bytes v;
  limit = omega (arith, ap (λ (t : ℕ × Fifo). t.1.limit) e, write-IsValid bytes v);
  closed = ap (λ (t : ℕ × Fifo). t.1.closed) e;
  stopped = ap (λ (t : ℕ × Fifo). t.1.stopped) e;
}
  where
    e : ((write r bytes).0, view (write r bytes).1) ≡ Fifo.put (view r) bytes
    e = write_refines bytes v

    swapped : min (length bytes) (room r) ≡ min (room r) (length bytes)
    swapped = omega arith

-- After one whole write the rest goes into the room that is left.
pub Stored-then :
    {r r' : RingBuffer} (bytes more : List ℕ) (out : Bool × RingBuffer)
    → Stored r bytes (true, r')
    → Stored r' more out
    → Stored r (bytes ++ more) out
Stored-then {r} {r'} bytes more out a b = record {
  whole = ground (arith, left, a.whole, b.whole, length-append bytes more);
  held =
      b.held
      ∙ ap₂ (λ c k. c ++ take k more) a.held left
      ∙ append_assoc (contents r) (take (room r) bytes) (take (room r - length bytes) more)
      ∙ ap (λ t. contents r ++ t) (sym (take-append (room r) bytes more));
  valid = b.valid;
  limit = b.limit ∙ a.limit;
  closed = b.closed ∙ a.closed;
  stopped = b.stopped ∙ a.stopped;
}
  where
    left : room r' ≡ room r - length bytes
    left = ground (
      arith,
      a.whole,
      a.limit,
      ap length a.held,
      length-append (contents r) (take (room r) bytes),
      length-take (room r) bytes,
    )

-- After a write that was cut short there is no room, so that nothing more would have gone in.
pub Stored-cut :
    {r r' : RingBuffer} (bytes more : List ℕ)
    → Stored r bytes (false, r')
    → Stored r (bytes ++ more) (false, r')
Stored-cut {r} {r'} bytes more a = record {
  whole = ground (arith, a.whole, length-append bytes more);
  held =
      a.held
      ∙ ap (λ t. contents r ++ t)
          (sym (append-nil (take (room r) bytes))
            ∙ ap (λ k. take (room r) bytes ++ take k more) over
            ∙ sym (take-append (room r) bytes more));
  valid = a.valid;
  limit = a.limit;
  closed = a.closed;
  stopped = a.stopped;
}
  where
    over : 0 ≡ room r - length bytes
    over = ground (arith, a.whole)

pub write_parts-Stored :
    (parts : List (List ℕ)) {r : RingBuffer}
    → IsValid r
    → Stored r (flat parts) (write_parts r parts)
unfolding write_parts
write_parts-Stored [] {r} v = record {
  whole = ground arith;
  held = rw take-nil (sym (append-nil (contents r)));
  valid = v;
  limit = refl;
  closed = refl;
  stopped = refl;
}
write_parts-Stored (bytes ∷ parts) {r} v =
    let a = write_whole-Stored bytes v in
    elim (Bool-cases (write_whole r bytes).0) [
      | inl e ↦ rw e (
          Stored-then bytes (flat parts) (write_parts (write_whole r bytes).1 parts) (rw e at a)
            (write_parts-Stored parts a.valid))
      | inr e ↦ rw e (Stored-cut bytes (flat parts) (rw e at a))
    ]

-- The parts of a packet are stored as its bytes, however these are written down.
pub write_parts-Stored_of :
    (parts : List (List ℕ)) (bytes : List ℕ) {r : RingBuffer}
    → flat parts ≡ bytes
    → IsValid r
    → Stored r bytes (write_parts r parts)
write_parts-Stored_of parts bytes {r} e v =
    subst (λ b. Stored r b (write_parts r parts)) e (write_parts-Stored parts v)

-- What was stored whole follows what was held.
pub Stored-whole :
    {r : RingBuffer} (bytes : List ℕ) (out : Bool × RingBuffer)
    → Stored r bytes out
    → out.0 ≡ true
    → contents out.1 ≡ contents r ++ bytes
Stored-whole {r} bytes out s e =
    s.held ∙ ap (λ t. contents r ++ t) (take_all (room r) bytes (ground (arith, s.whole)))
