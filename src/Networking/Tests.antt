-- ===== src/Networking/Tests.antt =====
-- Runs of src/networking.c, and its theorems at them, with a socket that holds a list of bytes and
-- moves two at a time.
use iq_tool.Prelude.{
  ℕ, ◌≡◌, ◌≢◌, refl, sym, List, [], ◌∷◌, ◌++◌, true, some, arith, length, take, drop, min,
  length-take, take-append-drop,
}
use iq_tool.Networking.{Connecting, networking_recv_all}
use iq_tool.Networking.Receiving.{Delivers, networking_recv_all_lem}
use iq_tool.Networking.Sending.{Accepts}

abbrev recv_two : List ℕ → ℕ → List ℕ × List ℕ
recv_two s n = (take (min 2 n) s, drop (min 2 n) s)

nothing_left : (n : ℕ) (s : List ℕ) → n ≢ 0 → length (take (min 2 n) s) ≡ 0 → length s ≡ 0
nothing_left n s h e = omega (arith, length-take (min 2 n) s)

recv_two-Delivers : Delivers recv_two (λ s. s)
recv_two-Delivers = record {
  in_order = λ s n. sym (take-append-drop (min 2 n) s);
  at_most = λ s n. omega (arith, length-take (min 2 n) s);
  at_end = λ s n h e. nothing_left n s h e;
}

networking_recv_all_lem_example :
    ((networking_recv_all recv_two (1 ∷ 2 ∷ 3 ∷ 4 ∷ []) 3).0 ≡ some (1 ∷ 2 ∷ 3 ∷ []))
    × ((networking_recv_all recv_two (1 ∷ 2 ∷ 3 ∷ 4 ∷ []) 3).1 ≡ 4 ∷ [])
networking_recv_all_lem_example =
    networking_recv_all_lem recv_two (λ s. s) (1 ∷ 2 ∷ 3 ∷ 4 ∷ []) 3 recv_two-Delivers (omega arith)

abbrev send_two : List ℕ → List ℕ → ℕ → ℕ × List ℕ
send_two s xs n = (min 2 n, s ++ take (min 2 n) xs)

send_two-Accepts : Accepts send_two (λ s. s)
send_two-Accepts = record {
  in_order = λ s xs. refl;
  at_most = λ s xs. omega arith;
  healthy = λ s xs h. omega arith;
}

abbrev connecting : Connecting
connecting = record { host_found = true; memory = true; socket = some 5 }
