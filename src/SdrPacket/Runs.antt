-- ===== src/SdrPacket/Runs.antt =====
-- A reader alone with a ring, and the same on the list of the bytes that the ring holds.
use mathlib.Core.Option
use iq_tool.Prelude.{
  ℕ, ◌≡◌, ◌≢◌, refl, sym, ap, ap₂, ◌∙◌, List, [], ◌∷◌, Bool, true, false, Option, none, some, arith,
  ◌==◌, if◌then◌else◌, length, take, drop, take-min, drop-min, take-nil, drop-nil, ◌⊎◌,
}
use iq_tool.RingBuffer.{RingBuffer, read}
use iq_tool.RingBuffer.Validity.{IsValid, read-IsValid}
use iq_tool.RingBuffer.Contents.{contents}
use iq_tool.RingBuffer.Fifo
use iq_tool.RingBuffer.Refines.{read_refines, view_read}
use iq_tool.RingBuffer.Traces.{read_waits_iff}
use iq_tool.SdrPacket.Reading.{Reader, done, ask}

-- `none`: the reader waits.
unfoldable pub run : {A : Type 0} → Reader A → RingBuffer → Option (A × RingBuffer)
run (done a) buffer = some (a, buffer)
run (ask n next) buffer = elim (read buffer n) [
  | none ↦ none
  | some (count, bytes, buffer') ↦ run (next bytes) buffer'
]

-- On a list: `closed` tells whether the stream ends with the list.
unfoldable pub run_list : {A : Type 0} → Reader A → Bool → List ℕ → Option (A × List ℕ)
run_list (done a) closed bytes = some (a, bytes)
run_list (ask n next) closed bytes =
    let answer = run_list (next (take n bytes)) closed (drop n bytes) in
    if n == 0 then answer else elim bytes [ [] ↦ if closed then answer else none | _ ∷ _ ↦ answer ]

abbrev pub view_run : {A : Type 0} → A × RingBuffer → A × List ℕ
view_run (a, buffer) = (a, contents buffer)

-- What a read of a ring that is not shut down gives, on the bytes held.
record Gives (r : RingBuffer) (n : ℕ) (out : List ℕ) (r' : RingBuffer) : Type 0 where
  given : out ≡ take n (contents r)
  left : contents r' ≡ drop n (contents r)
  flag : r'.end_of_stream ≡ r.end_of_stream
  alive : r'.shutting_down ≡ false
  some_or_end : (n ≡ 0) ⊎ ((length (contents r) ≢ 0) ⊎ (r.end_of_stream ≡ true))

take_of_length : (r : RingBuffer) (n : ℕ) → length (contents r) ≡ 0 → take n (contents r) ≡ []
take_of_length r n e = go (contents r) e
  where
    go : (bytes : List ℕ) → length bytes ≡ 0 → take n bytes ≡ []
    go [] h = take-nil ℕ n
    go (x ∷ bytes) h = absurd (omega arith)

drop_of_length :
    (r : RingBuffer) (n : ℕ) → length (contents r) ≡ 0 → drop n (contents r) ≡ contents r
drop_of_length r n e = go (contents r) e
  where
    go : (bytes : List ℕ) → length bytes ≡ 0 → drop n bytes ≡ bytes
    go [] h = drop-nil ℕ n
    go (x ∷ bytes) h = absurd (omega arith)

read-Gives :
    {r r' : RingBuffer} (n : ℕ) {count : ℕ} {out : List ℕ}
    → IsValid r
    → r.shutting_down ≡ false
    → read r n ≡ some (count, out, r')
    → Gives r n out r'
unfolding Fifo.get
read-Gives {r} {r'} n {count} {out} v alive e = record {
  given = ground (
    arith,
    read_refines n v,
    ap (Option.map view_read) e,
    take-min n (contents r),
    drop-min n (contents r),
    take_of_length r n,
    drop_of_length r n,
  );
  left = ground (
    arith,
    read_refines n v,
    ap (Option.map view_read) e,
    take-min n (contents r),
    drop-min n (contents r),
    take_of_length r n,
    drop_of_length r n,
  );
  flag = ground (
    arith,
    read_refines n v,
    ap (Option.map view_read) e,
    take-min n (contents r),
    drop-min n (contents r),
    take_of_length r n,
    drop_of_length r n,
  );
  alive = ground (
    arith,
    read_refines n v,
    ap (Option.map view_read) e,
    take-min n (contents r),
    drop-min n (contents r),
    take_of_length r n,
    drop_of_length r n,
  );
  some_or_end = ground (
    arith,
    read_refines n v,
    ap (Option.map view_read) e,
    take-min n (contents r),
    drop-min n (contents r),
    take_of_length r n,
    drop_of_length r n,
  );
}

-- On a list, a request that is answered goes on with what it asked for.
pub run_list_answer :
    {A : Type 0} (n : ℕ) (next : List ℕ → Reader A) (closed : Bool) (bytes : List ℕ)
    → (n ≡ 0) ⊎ ((length bytes ≢ 0) ⊎ (closed ≡ true))
    → run_list (ask n next) closed bytes ≡ run_list (next (take n bytes)) closed (drop n bytes)
unfolding run_list
run_list_answer n next closed [] h = ground arith
run_list_answer n next closed (x ∷ bytes) h = ground arith

run_list_wait :
    {A : Type 0} (n : ℕ) (next : List ℕ → Reader A) (bytes : List ℕ)
    → n ≢ 0
    → bytes ≡ []
    → run_list (ask n next) false bytes ≡ none
unfolding run_list
run_list_wait n next [] h e = ground arith
run_list_wait n next (x ∷ bytes) h e = cc

-- What `run_refines` says of one reader.
abbrev Refined : {A : Type 0} → Reader A → Type 0
Refined reader =
    (buffer : RingBuffer)
    → IsValid buffer
    → buffer.shutting_down ≡ false
    → Option.map view_run (run reader buffer)
      ≡ run_list reader buffer.end_of_stream (contents buffer)

ask-Refined :
    {A : Type 0} (n : ℕ) (next : List ℕ → Reader A)
    → ((bytes : List ℕ) → Refined (next bytes))
    → (buffer : RingBuffer) → IsValid buffer
    → buffer.shutting_down ≡ false
    → (answer : Option (ℕ × List ℕ × RingBuffer)) → read buffer n ≡ answer
    → Option.map view_run (run (ask n next) buffer)
      ≡ run_list (ask n next) buffer.end_of_stream (contents buffer)
unfolding run
ask-Refined n next later buffer v alive none e =
    let (pos, empty, _, opened) = (read_waits_iff buffer n).0 e in
    rw (e, run)
      (sym (
        ap (λ c. run_list (ask n next) c (contents buffer)) opened
        ∙ run_list_wait n next (contents buffer) pos empty))
ask-Refined n next later buffer v alive (some (count, out, buffer')) e =
    let g = read-Gives n v alive e in
    rw (e, run)
      (later out buffer' (read-IsValid n v e) g.alive
        ∙ ap₂ (λ c rest. run_list (next out) c rest) g.flag g.left
        ∙ ap (λ o. run_list (next o) buffer.end_of_stream (drop n (contents buffer))) g.given
        ∙ sym (run_list_answer n next buffer.end_of_stream (contents buffer) g.some_or_end))

-- A reader alone with a ring that is not shut down sees only the bytes that it holds, in order, and
-- whether the stream has ended: it waits, or ends with a result, exactly as on the list of them, and
-- leaves what is left of the list.
pub run_refines :
    {A : Type 0} (reader : Reader A) {buffer : RingBuffer}
    → IsValid buffer
    → buffer.shutting_down ≡ false
    → Option.map view_run (run reader buffer)
      ≡ run_list reader buffer.end_of_stream (contents buffer)
unfolding run run_list
run_refines (done a) v alive = refl
run_refines (ask n next) {buffer} v alive =
    ask-Refined n next (λ bytes b w h. run_refines (next bytes) w h) buffer v alive (read buffer n)
      refl
