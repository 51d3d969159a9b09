-- ===== src/SpyServer/Session.antt =====
-- The count of users of the socket library over one session of the client:
-- `spyserver_client_initialize`, and `spyserver_client_cleanup`, which `cleanup_application` of
-- src/setup.c calls at the end of every session, also of one whose initialization failed.
use iq_tool.Prelude.{
  ℕ, zero, suc, ◌+◌, ◌-◌, ◌≡◌, refl, Bool, true, false, ◌&&◌, ◌||◌, Option, none, some, arith, ltb,
  if◌then◌else◌,
}
use iq_tool.Networking.{
  Connecting, networking_initialize_module, networking_cleanup_module, networking_connect,
}

-- What becomes of the initialization once there is a connection: a failure before the settings are
-- sent or for want of the ring, which disconnects and takes one user from the count, a setting that
-- cannot be sent, or success.
pub data AfterConnecting : Type 0 where
  released : AfterConnecting
  setting_failed : AfterConnecting
  initialized : AfterConnecting

-- The result of the initialization, whether `input_module_private_data` is set, and the count.
pub record Opened : Type 0 where
  pub succeeded : Bool
  pub private_data : Bool
  pub ref_count : ℕ

abbrev ended_with : Bool → ℕ → Opened
ended_with succeeded ref_count = record {
  succeeded = succeeded;
  private_data = true;
  ref_count = ref_count;
}

abbrev pub after_connection : AfterConnecting → ℕ → Opened
after_connection released ref_count = ended_with false (networking_cleanup_module ref_count)
after_connection setting_failed ref_count = ended_with false ref_count
after_connection initialized ref_count = ended_with true ref_count

abbrev pub after_connect : AfterConnecting → Option ℕ × ℕ → Opened
after_connect after (none, ref_count) = ended_with false (networking_cleanup_module ref_count)
after_connect after (some fd, ref_count) = after_connection after ref_count

-- `spyserver_client_initialize`; `memory` tells whether the arena has memory for the private data.
unfoldable pub open_network : Bool → Bool → Connecting → AfterConnecting → ℕ → Opened
open_network memory started c after ref_count =
    let (ready, ref_count') = networking_initialize_module started ref_count in
    let connected = after_connect after (networking_connect started c ref_count') in
    let no_private_data : Opened = record {
      succeeded = false;
      private_data = false;
      ref_count = ref_count;
    } in
    if memory then (if ready then connected else ended_with false ref_count') else no_private_data

-- `spyserver_client_cleanup`
unfoldable pub close_network : Opened → ℕ
close_network s = if s.private_data then networking_cleanup_module s.ref_count else s.ref_count

-- Whether the server can be reached.
abbrev pub reachable : Connecting → Bool
reachable c = c.host_found && (c.memory && elim c.socket [ none ↦ false | some fd ↦ true ])

-- What a session with a connection adds to the count.
abbrev pub left_behind : AfterConnecting → ℕ
left_behind released = 0
left_behind setting_failed = 1
left_behind initialized = 1

abbrev met : Bool → Bool → Option ℕ → Connecting
met host_found memory socket = record { host_found = host_found; memory = memory; socket = socket }

one_less : (n : ℕ) → networking_cleanup_module n ≡ n - 1
unfolding networking_cleanup_module
one_less n = ground arith

one_more :
    (started : Bool) (n : ℕ) → networking_initialize_module started (suc n) ≡ (true, suc (suc n))
unfolding networking_initialize_module
one_more started n = ground arith

closed_lem :
    (after : AfterConnecting) (fd n : ℕ)
    → close_network (after_connect after (some fd, suc (suc n))) ≡ n + left_behind after
unfolding close_network
closed_lem released fd n =
    rw (one_less (suc (suc n))) (rw (one_less (suc (suc n) - 1)) (omega arith))
closed_lem setting_failed fd n = rw (one_less (suc (suc n))) (omega arith)
closed_lem initialized fd n = rw (one_less (suc (suc n))) (omega arith)

not_connected_lem :
    (after : AfterConnecting) (n : ℕ)
    → close_network (after_connect after (none, networking_cleanup_module (suc (suc n)))) ≡ n - 1
unfolding close_network
not_connected_lem after n =
    rw (one_less (suc (suc n)))
      (rw (one_less (suc (suc n) - 1)) (rw (one_less (suc (suc n) - 1 - 1)) (omega arith)))

-- Once there is a user, a connection adds one, and a failure takes one away.
connected_lem :
    (started host_found memory : Bool) (socket : Option ℕ) (after : AfterConnecting) (n : ℕ)
    → let c : Connecting = met host_found memory socket in
      close_network (after_connect after (networking_connect started c (suc n)))
      ≡ (if reachable c then n + left_behind after else n - 1)
unfolding networking_connect
connected_lem started false m socket after n = rw (one_more started n) (not_connected_lem after n)
connected_lem started true false socket after n =
    rw (one_more started n) (not_connected_lem after n)
connected_lem started true true none after n = rw (one_more started n) (not_connected_lem after n)
connected_lem started true true (some fd) after n = rw (one_more started n) (closed_lem after fd n)

in_use :
    (started : Bool) (c : Connecting) (after : AfterConnecting) (n : ℕ)
    → close_network (open_network true started c after (suc n))
      ≡ (if (ltb 0 (suc n) || started) && reachable c then suc n + left_behind after else suc n - 1)
unfolding open_network
in_use started c after n =
    let some_user : ltb 0 (suc n) ≡ true = ground arith in
    rw some_user
      (rw (one_more started n) (connected_lem started c.host_found c.memory c.socket after (suc n)))

-- Over a whole session, its cleanup included, the count grows by one if there is a connection and
-- the initialization succeeds or cannot send a setting, and stays the same if it fails in another
-- way after the connection or there is no memory for the private data. If there is no connection, the
-- count falls by one, or stays 0.
pub session_lem :
    (memory started : Bool) (c : Connecting) (after : AfterConnecting) (ref_count : ℕ)
    → close_network (open_network memory started c after ref_count) ≡ (
        if memory
        then (if (ltb 0 ref_count || started) && reachable c
            then ref_count + left_behind after
            else ref_count - 1)
        else ref_count)
unfolding open_network networking_initialize_module
session_lem false started c after n = unfold close_network in refl
session_lem true false c after zero = unfold close_network networking_cleanup_module in refl
session_lem true true c after zero = connected_lem true c.host_found c.memory c.socket after 0
session_lem true started c after (suc n) = in_use started c after n
