-- ===== src/Networking/Users.antt =====
-- How the count of users follows the calls.
use iq_tool.Prelude.{ℕ, ◌+◌, ◌≡◌, Bool, none, some, arith}
use iq_tool.Networking.{
  Connecting, networking_initialize_module, networking_cleanup_module, networking_connect,
}

-- A connection adds exactly one to the count, and a failed one leaves it.
pub networking_connect_lem :
    (started : Bool) (c : Connecting) (ref_count : ℕ)
    → (networking_connect started c ref_count).1
      ≡ (elim (networking_connect started c ref_count).0 as (λ x. ℕ) [
        | none ↦ ref_count
        | some fd ↦ ref_count + 1
      ])
unfolding networking_connect networking_initialize_module networking_cleanup_module
networking_connect_lem started c ref_count = ground arith
