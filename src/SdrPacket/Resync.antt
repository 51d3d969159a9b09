-- ===== src/SdrPacket/Resync.antt =====
-- The search for the magic number: what it passes over, and that it ends.
use mathlib.Core.Option
use iq_tool.Prelude.{
  ℕ, zero, suc, ◌+◌, ◌*◌, ◌/◌, ◌<◌, ◌≡◌, ◌≢◌, refl, ap, ◌∙◌, inl, inr, List, [], ◌∷◌, Bool, true,
  Option, some, arith, ◌==◌, Bool-cases, length, take, drop, ne→==,
}
use iq_tool.SdrPacket.{iqpk_magic, of_bytes}
use iq_tool.SdrPacket.Reading.{
  Reader, done, ask, TargetChunk, samples, Outcome, read_header, map_result, synchronize,
  read_packet, ended,
}
use iq_tool.SdrPacket.Runs.{run_list}
use iq_tool.SdrPacket.Payload.{run_list-map_result}

module _ (target : TargetChunk) (size : ℕ) where
  -- What an earlier round left in the word does not matter: every round reads four new bytes.
  word_irrelevant :
      (fuel word word' : ℕ) (closed : Bool) (bytes : List ℕ)
      → run_list (synchronize fuel word target size) closed bytes
        ≡ run_list (synchronize fuel word' target size) closed bytes
  unfolding run_list synchronize
  word_irrelevant zero word word' closed bytes = refl
  word_irrelevant (suc fuel) word word' closed [] = refl
  word_irrelevant (suc fuel) word word' closed (a ∷ []) = refl
  word_irrelevant (suc fuel) word word' closed (a ∷ b ∷ []) = refl
  word_irrelevant (suc fuel) word word' closed (a ∷ b ∷ c ∷ []) = refl
  word_irrelevant (suc fuel) word word' closed (a ∷ b ∷ c ∷ d ∷ bytes) = refl

  -- If the first four bytes of the stream are not the magic number, then five bytes are thrown away,
  -- and the search goes on behind them.
  pub resync_skips_five :
      (fuel : ℕ) (closed : Bool) (a b c d e : ℕ) (rest : List ℕ)
      → of_bytes (a ∷ b ∷ c ∷ d ∷ []) ≢ iqpk_magic
      → run_list (read_packet (suc fuel) target size) closed (a ∷ b ∷ c ∷ d ∷ e ∷ rest)
        ≡ run_list (read_packet fuel target size) closed rest
  unfolding run_list synchronize read_packet
  resync_skips_five fuel closed a b c d e rest h =
      rw (ne→== (of_bytes (a ∷ b ∷ c ∷ d ∷ [])) iqpk_magic h) (word_irrelevant fuel _ 0 closed rest)

  -- So a packet that follows a single stray byte is missed, whatever that byte is: the search goes on
  -- behind its magic number.
  pub resync_misses :
      (fuel : ℕ) (closed : Bool) (stray : ℕ) (rest : List ℕ)
      → stray < 256
      → run_list (read_packet (suc fuel) target size) closed (stray ∷ 73 ∷ 81 ∷ 80 ∷ 75 ∷ rest)
        ≡ run_list (read_packet fuel target size) closed rest
  resync_misses fuel closed stray rest h =
      resync_skips_five fuel closed stray 73 81 80 75 rest (λ e. omega arith)

  -- On a stream that has ended every reader ends.
  ended_answers :
      {A : Type 0} (reader : Reader A) (bytes : List ℕ)
      → (a : A) × (rest : List ℕ) × (run_list reader true bytes ≡ some (a, rest))
  unfolding run_list
  ended_answers (done a) bytes = (a, bytes, refl)
  ended_answers (ask n next) [] =
      let (a, rest, e) = ended_answers (next (take n [])) (drop n []) in (a, rest, ground arith)
  ended_answers (ask n next) (x ∷ bytes) =
      let (a, rest, e) = ended_answers (next (take n (x ∷ bytes))) (drop n (x ∷ bytes)) in
      (a, rest, ground arith)

  Ends : Reader (Option Outcome) → List ℕ → Type 0
  Ends reader bytes =
      (o : Outcome) × (rest : List ℕ) × (run_list reader true bytes ≡ some (some o, rest))

  -- From the magic number on.
  header-Ends : (bytes : List ℕ) → Ends (map_result some (read_header target size)) bytes
  unfolding Ends
  header-Ends bytes =
      let (o, rest, e) = ended_answers (read_header target size) bytes in
      (
        o,
        rest,
        run_list-map_result some (read_header target size) true bytes
            ∙ ap (Option.map (λ (t : Outcome × List ℕ). (some t.0, t.1))) e,
      )

  synchronize-Ends :
      (fuel word : ℕ) (bytes : List ℕ)
      → length bytes < fuel
      → Ends (synchronize fuel word target size) bytes
  unfolding run_list synchronize Ends
  synchronize-Ends zero word bytes h = elim h [ ]
  synchronize-Ends (suc fuel) word [] h = (_, _, refl)
  synchronize-Ends (suc fuel) word (a ∷ []) h = (_, _, refl)
  synchronize-Ends (suc fuel) word (a ∷ b ∷ []) h = (_, _, refl)
  synchronize-Ends (suc fuel) word (a ∷ b ∷ c ∷ []) h = (_, _, refl)
  synchronize-Ends (suc fuel) word (a ∷ b ∷ c ∷ d ∷ []) h =
      elim (Bool-cases (of_bytes (a ∷ b ∷ c ∷ d ∷ []) == iqpk_magic)) [
        | inl e ↦ let (o, rest, f) = header-Ends [] in (o, rest, rw e f)
        | inr e ↦ (ended (samples 0) target, [], rw e refl)
      ]
  synchronize-Ends (suc fuel) word (a ∷ b ∷ c ∷ d ∷ x ∷ bytes) h =
      elim (Bool-cases (of_bytes (a ∷ b ∷ c ∷ d ∷ []) == iqpk_magic)) [
        | inl e ↦ let (o, rest, f) = header-Ends (x ∷ bytes) in (o, rest, rw e f)
        | inr e ↦
            let (o, rest, f) =
              synchronize-Ends fuel
                (of_bytes (a ∷ b ∷ c ∷ d ∷ []) / 256 + of_bytes (x ∷ []) * 16777216) bytes
                (omega arith) in
            (o, rest, rw e f)
      ]

  -- On a stream that has ended the search ends with a result, however many bytes it passes over:
  -- fuel of one round more than there are bytes is enough.
  pub read_packet_total :
      (fuel : ℕ) (bytes : List ℕ)
      → length bytes < fuel
      → (o : Outcome) × (rest : List ℕ) × (run_list (read_packet fuel target size) true bytes
          ≡ some (some o, rest))
  unfolding read_packet Ends
  read_packet_total fuel bytes h = synchronize-Ends fuel 0 bytes h
