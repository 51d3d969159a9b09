-- ===== src/Networking.antt =====
-- src/networking.c: the count of users of the socket library, and the loops that send and receive a
-- whole block. The socket is a parameter.
pub mod Users
pub mod Receiving
pub mod Sending
mod Tests
use mathlib.Core.Option
use iq_tool.Prelude.{
  ℕ, zero, suc, ◌+◌, ◌-◌, ◌%◌, ◌^◌, List, [], ◌∷◌, ◌++◌, Bool, true, false, Option, none, some, ltb,
  ◌==◌, if◌then◌else◌, length, drop,
}

-- `g_networking_ref_count` stands for itself. `started` tells whether `WSAStartup` succeeds; where
-- there is nothing to start, it is true.
unfoldable pub networking_initialize_module : Bool → ℕ → Bool × ℕ
networking_initialize_module started ref_count =
    if ltb 0 ref_count
    then (true, ref_count + 1)
    else if started
    then (true, 1)
    else (false, ref_count)

unfoldable pub networking_cleanup_module : ℕ → ℕ
networking_cleanup_module ref_count = if ref_count == 0 then ref_count else ref_count - 1

-- What `networking_connect` meets: whether the host is found, whether there is memory for the
-- context, and the socket that it connects to one of the addresses, if any.
pub record Connecting : Type 0 where
  pub host_found : Bool
  pub memory : Bool
  pub socket : Option ℕ

-- `networking_connect`: the context's socket (`none` is NULL), and the count.
unfoldable pub networking_connect : Bool → Connecting → ℕ → Option ℕ × ℕ
networking_connect started c ref_count =
    let (ready, ref_count') = networking_initialize_module started ref_count in
    let failed : Option ℕ × ℕ = (none, networking_cleanup_module ref_count') in
    if ready
    then (if c.host_found
        then (if c.memory
            then elim c.socket [ none ↦ failed | some fd ↦ (some fd, ref_count') ]
            else failed)
        else failed)
    else (none, ref_count')

-- The length that `recv` and `send` are given: `(int)n` as a `size_t`, the low 32 bits with their
-- sign.
unfoldable pub int_length : ℕ → ℕ
int_length n = let low = n % 2 ^ 32 in if ltb low (2 ^ 31) then low else low + (2 ^ 64 - 2 ^ 32)

-- The loop of `networking_recv_all`: `need` bytes are still missing. A round gets at least one
-- byte or ends the loop, so that as many rounds as bytes are enough. `recv` returns no byte where
-- the library's returns 0 or less.
unfoldable pub recv_loop : {S : Type 0} → (S → ℕ → List ℕ × S) → ℕ → S → ℕ → Option (List ℕ) × S
recv_loop recv fuel s zero = (some [], s)
recv_loop recv zero s (suc more) = (none, s)
recv_loop recv (suc fuel) s (suc more) =
    let (out, s') = recv s (int_length (suc more)) in
    let (rest, s'') = recv_loop recv fuel s' (suc more - length out) in
    if length out == 0 then (none, s') else (Option.map (λ bytes. out ++ bytes) rest, s'')

-- `networking_recv_all`: `none` is the return value false.
unfoldable pub networking_recv_all :
    {S : Type 0} → (S → ℕ → List ℕ × S) → S → ℕ → Option (List ℕ) × S
networking_recv_all recv s len = recv_loop recv len s len

-- The loop of `networking_send_all`, in the same way: `send` is given what is left of the block and a
-- length, and returns how many bytes it took.
unfoldable pub send_loop : {S : Type 0} → (S → List ℕ → ℕ → ℕ × S) → ℕ → S → List ℕ → Bool × S
send_loop send fuel s [] = (true, s)
send_loop send zero s (byte ∷ more) = (false, s)
send_loop send (suc fuel) s (byte ∷ more) =
    let (sent, s') = send s (byte ∷ more) (int_length (suc (length more))) in
    let rest = send_loop send fuel s' (drop sent (byte ∷ more)) in
    if sent == 0 then (false, s') else rest

-- `networking_send_all`
unfoldable pub networking_send_all : {S : Type 0} → (S → List ℕ → ℕ → ℕ × S) → S → List ℕ → Bool × S
networking_send_all send s bytes = send_loop send (length bytes) s bytes
