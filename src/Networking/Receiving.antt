-- ===== src/Networking/Receiving.antt =====
-- What the receiving loop returns.
use mathlib.Core.Option
use iq_tool.Prelude.{
  nil_of_length, ℕ, zero, suc, ◌-◌, ◌<◌, ◌^◌, ◌≤◌, ◌≡◌, ◌≢◌, refl, ap, sym, ◌∙◌, List, [], ◌∷◌,
  ◌++◌, Option, none, some, arith, leb, ◌==◌, ◌+◌, inl, inr, Bool-cases, ==→eq, if◌then◌else◌,
  length, take, drop, length-append,
}
use iq_tool.Networking.{int_length, recv_loop, networking_recv_all}

-- What `recv` promises of a stream socket, whose bytes still to come are `stream s`: they come in
-- order, at most as many as are asked for, and none only at the end.
pub record Delivers {S : Type 0} (recv : S → ℕ → List ℕ × S) (stream : S → List ℕ) : Type 0 where
  pub in_order : (s : S) (n : ℕ) → stream s ≡ (recv s n).0 ++ stream ((recv s n).1)
  pub at_most : (s : S) (n : ℕ) → length ((recv s n).0) ≤ n
  pub at_end : (s : S) (n : ℕ) → n ≢ 0 → length ((recv s n).0) ≡ 0 → length (stream s) ≡ 0

-- A length that an int holds is given as it is.
pub int_length-small : (n : ℕ) → n < 2 ^ 31 → int_length n ≡ n
unfolding int_length
int_length-small n h = ground arith

-- How the two parts of a stream are taken from its front.
take_both :
    (n : ℕ) (xs ys : List ℕ) → length xs ≤ n → take n (xs ++ ys) ≡ xs ++ take (n - length xs) ys
take_both n [] ys h = let e : n ≡ n - 0 = omega arith in ap (λ k. take k ys) e
take_both zero (x ∷ xs) ys h = absurd (omega arith)
take_both (suc n) (x ∷ xs) ys h =
    let e : n - length xs ≡ suc n - suc (length xs) = omega arith in
    ap (λ t. x ∷ t) (take_both n xs ys (omega arith) ∙ ap (λ k. xs ++ take k ys) e)

drop_both : (n : ℕ) (xs ys : List ℕ) → length xs ≤ n → drop n (xs ++ ys) ≡ drop (n - length xs) ys
drop_both n [] ys h = let e : n ≡ n - 0 = omega arith in ap (λ k. drop k ys) e
drop_both zero (x ∷ xs) ys h = absurd (omega arith)
drop_both (suc n) (x ∷ xs) ys h =
    let e : n - length xs ≡ suc n - suc (length xs) = omega arith in
    drop_both n xs ys (omega arith) ∙ ap (λ k. drop k ys) e

-- The answer and what is left of the stream, where `need` bytes were asked for.
abbrev whole_or_none : ℕ → List ℕ → Option (List ℕ)
whole_or_none need bytes = if leb need (length bytes) then some (take need bytes) else none

whole_or_none_step :
    (need : ℕ) (out rest : List ℕ)
    → length out ≤ need
    → Option.map (λ bytes. out ++ bytes) (whole_or_none (need - length out) rest)
      ≡ whole_or_none need (out ++ rest)
whole_or_none_step need out rest h =
    ground (arith, take_both need out rest h, length-append out rest)

none_yet : (n : ℕ) → none ≡ whole_or_none (suc n) []
none_yet n = ground arith

-- A socket that gives nothing is at its end.
at_end_lem :
    {S : Type 0} (recv : S → ℕ → List ℕ × S) (stream : S → List ℕ) (s : S) (n : ℕ)
    → Delivers recv stream
    → length ((recv s (suc n)).0) ≡ 0
    → (none ≡ whole_or_none (suc n) (stream s))
      × (stream ((recv s (suc n)).1) ≡ drop (suc n) (stream s))
at_end_lem recv stream s n d h =
    let (out, s') = recv s (suc n) in
    let empty : stream s ≡ [] = nil_of_length (stream s) (d.at_end s (suc n) (omega arith) h) in
    let total : length (stream s) ≡ length out + length (stream s') =
      ap length (d.in_order s (suc n)) ∙ length-append out (stream s') in
    let later : stream s' ≡ [] =
      nil_of_length (stream s') (omega (arith, total, ap length empty)) in
    (none_yet n ∙ ap (whole_or_none (suc n)) (sym empty), later ∙ ap (drop (suc n)) (sym empty))

recv_loop_lem :
    {S : Type 0} (recv : S → ℕ → List ℕ × S) (stream : S → List ℕ) (fuel : ℕ) (s : S) (need : ℕ)
    → Delivers recv stream
    → need ≤ fuel
    → need < 2 ^ 31
    → ((recv_loop recv fuel s need).0 ≡ whole_or_none need (stream s))
      × (stream ((recv_loop recv fuel s need).1) ≡ drop need (stream s))
unfolding recv_loop
recv_loop_lem recv stream zero s zero d h small = (ground arith, refl)
recv_loop_lem recv stream zero s (suc n) d h small = absurd (omega arith)
recv_loop_lem recv stream (suc fuel) s zero d h small = (ground arith, refl)
recv_loop_lem recv stream (suc fuel) s (suc n) d h small = rw (int_length-small (suc n) small) (
    let (out, s') = recv s (suc n) in
    let split = d.in_order s (suc n) in
    let short = d.at_most s (suc n) in
    elim (Bool-cases (length out == 0)) [
      | inl e ↦ rw e (at_end_lem recv stream s n d (==→eq (length out) 0 e))
      | inr e ↦
          let (got, rest) =
            recv_loop_lem recv stream fuel s' (suc n - length out) d (ground arith) (omega arith) in
          rw e (
            ap (Option.map (λ bytes. out ++ bytes)) got
                ∙ whole_or_none_step (suc n) out (stream s') short
                ∙ ap (whole_or_none (suc n)) (sym split),
            rest ∙ sym (drop_both (suc n) out (stream s') short) ∙ ap (drop (suc n)) (sym split),
          )
    ])

-- From a stream socket, for a length that an int holds, `networking_recv_all` returns the next `len`
-- bytes if so many are still to come, and false if not; either way the first `len` bytes, or all, are
-- gone from the stream.
pub networking_recv_all_lem :
    {S : Type 0} (recv : S → ℕ → List ℕ × S) (stream : S → List ℕ) (s : S) (len : ℕ)
    → Delivers recv stream
    → len < 2 ^ 31
    → ((networking_recv_all recv s len).0
        ≡ (if leb len (length (stream s)) then some (take len (stream s)) else none))
      × (stream ((networking_recv_all recv s len).1) ≡ drop len (stream s))
unfolding networking_recv_all
networking_recv_all_lem recv stream s len d small =
    recv_loop_lem recv stream len s len d (omega arith) small
