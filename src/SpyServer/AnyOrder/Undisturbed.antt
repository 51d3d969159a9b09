-- ===== src/SpyServer/AnyOrder/Undisturbed.antt =====
-- Runs where no call fails before the end are among those of any order.
use mathlib.Core.Option
use mathlib.Core.Option.{none-ne-some, some-injective}
use iq_tool.Prelude.{
  nil_of_length, ℕ, ◌≡◌, refl, ap, ap₂, sym, ◌∙◌, List, [], ◌∷◌, ◌++◌, Bool, true, false, Option,
  none, some, arith, leb, length, take, drop, min, length-drop, take_all, inl, inr, Bool-cases,
}
use iq_tool.SdrPacket.Runs.{run_list, run_list_answer}
use iq_tool.SdrPacket.Payload.{run_list-map_result}
use iq_tool.SpyServer.{Calls, result, recv, send, write, requested, fatal}
use iq_tool.SpyServer.Consumer.{
  Filled, Stream, read_ring, get_chunk, deliver, release, asked_to_stop, finish, unfinished,
  undisturbed,
}
use iq_tool.SpyServer.Running.{run_from}
use iq_tool.SpyServer.Consuming.{run_stream}
use iq_tool.SpyServer.AnyOrder.{Turn, put_after, delivered_after}

abbrev pub turn : Bool → ℕ → Turn
turn positive count = record { positive = positive; count = count }

min_same : (n : ℕ) → min n n ≡ n
min_same n = omega arith

pub run_from-put_after :
    {A : Type 0} (c : Calls A) (stopping : Bool) (input : List ℕ)
    → (ts : List Turn) × (put_after c ts input ≡ (run_from c stopping input).written)
unfolding put_after run_from
run_from-put_after (result a) stopping input = ([], refl)
run_from-put_after (recv n next) stopping input = elim (Bool-cases (leb n (length input))) [
  | inl e ↦
      let (ts, h) = run_from-put_after (next (some (take n input))) stopping (drop n input) in
      (turn true 0 ∷ ts, rw e h)
  | inr e ↦
      let (ts, h) = run_from-put_after (next none) stopping [] in
      let gone : drop (length input) input ≡ [] =
        nil_of_length (drop (length input) input)
          (omega (arith, length-drop (length input) input)) in
      (turn false (length input) ∷ ts, rw e (rw gone h))
]
run_from-put_after (send bytes next) stopping input =
    let (ts, h) = run_from-put_after (next true) stopping input in (turn true 0 ∷ ts, h)
run_from-put_after (write bytes next) stopping input =
    let (ts, h) = run_from-put_after (next (length bytes)) stopping input in
    (
      turn true (length bytes) ∷ ts,
      rw (min_same (length bytes))
          (ap₂ (λ a b. a ++ b) (take_all (length bytes) bytes (omega arith)) h),
    )
run_from-put_after (requested next) stopping input =
    let (ts, h) = run_from-put_after (next stopping) stopping input in (turn stopping 0 ∷ ts, h)
run_from-put_after (fatal next) stopping input =
    let (ts, h) = run_from-put_after next true input in (turn true 0 ∷ ts, h)

abbrev Result : Type 0
Result = (List Filled × Bool) × List ℕ

-- What is delivered first comes before the rest.
rest_of :
    (c : Filled) (o : Option Result) (t : Result)
    → Option.map (λ (r : Result). ((c ∷ r.0.0, r.0.1), r.1)) o ≡ some t
    → (r : Result) × (o ≡ some r) × (c ∷ r.0.0 ≡ t.0.0)
rest_of c none t e = absurd (none-ne-some _ e)
rest_of c (some r) t e = (r, refl, ap (λ k. k.0.0) (some-injective _ _ e))

pub run_stream-delivered_after :
    (s : Stream) (bytes : List ℕ) (t : Result)
    → run_stream s bytes ≡ some t
    → (ts : List Turn) × (delivered_after s ts bytes ≡ t.0.0)
unfolding run_stream undisturbed delivered_after run_list
run_stream-delivered_after (read_ring n next) bytes t e =
    let (ts, h) =
      run_stream-delivered_after (next (take n bytes)) (drop n bytes) t
        (sym (run_list_answer n (λ b. undisturbed (next b)) true bytes (inr (inr refl))) ∙ e) in
    (turn true n ∷ ts, rw (min_same n) h)
run_stream-delivered_after (get_chunk next) bytes t e =
    let (ts, h) = run_stream-delivered_after (next true) bytes t e in (turn true 0 ∷ ts, h)
run_stream-delivered_after (deliver c next) bytes t e =
    let (r, f, g) =
      rest_of c (run_stream (next true) bytes) t
        (sym (run_list-map_result _ (undisturbed (next true)) true bytes) ∙ e) in
    let (ts, h) = run_stream-delivered_after (next true) bytes r f in
    (turn true 0 ∷ ts, ap (λ cs. c ∷ cs) h ∙ g)
run_stream-delivered_after (release next) bytes t e =
    let (ts, h) = run_stream-delivered_after next bytes t e in (turn true 0 ∷ ts, h)
run_stream-delivered_after (asked_to_stop next) bytes t e =
    let (ts, h) = run_stream-delivered_after (next false) bytes t e in (turn false 0 ∷ ts, h)
run_stream-delivered_after finish bytes t e = ([], ap (λ k. k.0.0) (some-injective _ _ e))
run_stream-delivered_after unfinished bytes t e = ([], ap (λ k. k.0.0) (some-injective _ _ e))
