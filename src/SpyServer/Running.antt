-- ===== src/SpyServer/Running.antt =====
-- The calls of a thread where nothing fails before the bytes that come from the socket are used up:
-- what it puts into the ring, and what it sends.
use iq_tool.Prelude.{
  ℕ, ◌≡◌, refl, List, [], ◌++◌, Bool, true, false, Option, none, some, arith, leb, if◌then◌else◌,
  length, take, drop, take-front, drop-front, length-append,
}
use iq_tool.SpyServer.{Calls, result, recv, send, write, requested, fatal}

pub record Ran (A : Type 0) : Type 0 where
  pub answer : A
  pub sent : List ℕ
  pub written : List ℕ
  pub left : List ℕ

abbrev pub more_sent : {A : Type 0} → List ℕ → Ran A → Ran A
more_sent bytes o = record o { sent = bytes ++ o.sent }

abbrev pub more_written : {A : Type 0} → List ℕ → Ran A → Ran A
more_written bytes o = record o { written = bytes ++ o.written }

-- A request for more bytes than are still to come fails, and uses them up. `stopping` is the flag that
-- `is_shutdown_requested` reads; a fatal error raises it.
unfoldable pub run_from : {A : Type 0} → Calls A → Bool → List ℕ → Ran A
run_from (result a) stopping input = record { answer = a; sent = []; written = []; left = input }
run_from (recv n next) stopping input =
    let more = run_from (next (some (take n input))) stopping (drop n input) in
    let lost = run_from (next none) stopping [] in if leb n (length input) then more else lost
run_from (send bytes next) stopping input = more_sent bytes (run_from (next true) stopping input)
run_from (write bytes next) stopping input =
    more_written bytes (run_from (next (length bytes)) stopping input)
run_from (requested next) stopping input = run_from (next stopping) stopping input
run_from (fatal next) stopping input = run_from next true input

-- From a state where no shutdown is requested.
abbrev pub run_calls : {A : Type 0} → Calls A → List ℕ → Ran A
run_calls c input = run_from c false input

-- A request is answered from the front of what comes.
pub run_calls-recv :
    {A : Type 0} (n : ℕ) (bytes rest : List ℕ) (next : Option (List ℕ) → Calls A)
    → length bytes ≡ n
    → run_calls (recv n next) (bytes ++ rest) ≡ run_calls (next (some bytes)) rest
unfolding run_from
run_calls-recv n bytes rest next e =
    let enough : leb n (length (bytes ++ rest)) ≡ true = ground (arith, length-append bytes rest) in
    rw enough (rw (take-front n bytes rest e) (rw (drop-front n bytes rest e) refl))

pub run_calls-recv_short :
    {A : Type 0} (n : ℕ) (input : List ℕ) (next : Option (List ℕ) → Calls A)
    → leb n (length input) ≡ false
    → run_calls (recv n next) input ≡ run_calls (next none) []
unfolding run_from
run_calls-recv_short n input next e = rw e refl
