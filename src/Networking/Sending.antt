-- ===== src/Networking/Sending.antt =====
-- What the sending loop puts on the wire.
use iq_tool.Prelude.{
  ℕ, zero, suc, ◌^◌, ◌<◌, ◌≤◌, ◌≡◌, ◌≢◌, refl, ap, sym, ◌∙◌, List, [], ◌∷◌, ◌++◌, true, arith,
  length, take, drop, ne→==, append-nil, append_assoc, take-append-drop, length-drop,
}
use iq_tool.Networking.{send_loop, networking_send_all}
use iq_tool.Networking.Receiving.{int_length-small}

-- What `send` promises of a block that it is given with its length: it takes a front of the bytes,
-- and what was sent so far, `wire s`, grows by exactly that. `healthy`: it takes at least one byte
-- where there is one.
pub record Accepts {S : Type 0} (send : S → List ℕ → ℕ → ℕ × S) (wire : S → List ℕ) : Type 0 where
  pub in_order :
      (s : S) (xs : List ℕ)
      → wire ((send s xs (length xs)).1) ≡ wire s ++ take ((send s xs (length xs)).0) xs
  pub at_most : (s : S) (xs : List ℕ) → (send s xs (length xs)).0 ≤ length xs
  pub healthy : (s : S) (xs : List ℕ) → length xs ≢ 0 → (send s xs (length xs)).0 ≢ 0

send_loop_lem :
    {S : Type 0} (send : S → List ℕ → ℕ → ℕ × S) (wire : S → List ℕ) (fuel : ℕ) (s : S)
    (xs : List ℕ)
    → Accepts send wire
    → length xs ≤ fuel
    → length xs < 2 ^ 31
    → ((send_loop send fuel s xs).0 ≡ true) × (wire ((send_loop send fuel s xs).1) ≡ wire s ++ xs)
unfolding send_loop
send_loop_lem send wire zero s [] a h small = (refl, sym (append-nil (wire s)))
send_loop_lem send wire zero s (x ∷ xs) a h small = absurd (omega arith)
send_loop_lem send wire (suc fuel) s [] a h small = (refl, sym (append-nil (wire s)))
send_loop_lem send wire (suc fuel) s (x ∷ xs) a h small =
    rw (int_length-small (suc (length xs)) small) (
      let (sent, s') = send s (x ∷ xs) (suc (length xs)) in
      let some_taken = a.healthy s (x ∷ xs) (omega arith) in
      let e = ne→== sent 0 some_taken in
      let left : length (drop sent (x ∷ xs)) ≤ fuel =
        omega (arith, length-drop sent (x ∷ xs), some_taken) in
      let (done, rest) =
        send_loop_lem send wire fuel s' (drop sent (x ∷ xs)) a left
          (omega (arith, length-drop sent (x ∷ xs))) in
      rw e (
        done,
        rest
            ∙ ap (λ t. t ++ drop sent (x ∷ xs)) (a.in_order s (x ∷ xs))
            ∙ append_assoc (wire s) (take sent (x ∷ xs)) (drop sent (x ∷ xs))
            ∙ ap (λ t. wire s ++ t) (take-append-drop sent (x ∷ xs)),
      ))

-- On a socket that takes at least one byte at a time, for a block whose length an int holds,
-- `networking_send_all` returns true and puts exactly the block on the wire, whatever the pieces.
pub networking_send_all_lem :
    {S : Type 0} (send : S → List ℕ → ℕ → ℕ × S) (wire : S → List ℕ) (s : S) (bytes : List ℕ)
    → Accepts send wire
    → length bytes < 2 ^ 31
    → ((networking_send_all send s bytes).0 ≡ true)
      × (wire ((networking_send_all send s bytes).1) ≡ wire s ++ bytes)
unfolding networking_send_all
networking_send_all_lem send wire s bytes a small =
    send_loop_lem send wire (length bytes) s bytes a (omega arith) small
