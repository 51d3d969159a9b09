-- ===== src/Output/Writing.antt =====
-- What the writer's loop leaves in the file.
use mathlib.Core.Option
use mathlib.Core.Bool.{true≢false}
use iq_tool.Prelude.{
  ℕ, zero, suc, ◌+◌, ◌≤◌, ◌<◌, ◌≡◌, refl, ap, sym, ◌∙◌, inl, inr, List, [], ◌∷◌, ◌++◌, Bool, true,
  false, some, arith, ◌==◌, Bool-cases, ==→eq, length, length-append, take, drop, length-drop,
  take-append-drop, append_assoc, append-nil, subst, take_all, add_size, ◌^◌,
}
use iq_tool.RingBuffer.{RingBuffer}
use iq_tool.RingBuffer.Contents.{contents}
use iq_tool.RingBuffer.Validity.{IsValid}
use iq_tool.SdrPacket.Runs.{run, run_list, view_run, run_refines}
use iq_tool.Output.{Out, exited, count_written, report, write_round, run_writer}

-- What `fwrite` and `sf_write_raw` promise, for bytes: the file `file s` grows by a front of the
-- block, of as many bytes as the result says.
pub record Writes {S : Type 0} (fwrite : S → List ℕ → ℕ × S) (file : S → List ℕ) : Type 0 where
  pub appends : (s : S) (xs : List ℕ) → file ((fwrite s xs).1) ≡ file s ++ take ((fwrite s xs).0) xs
  pub at_most : (s : S) (xs : List ℕ) → (fwrite s xs).0 ≤ length xs

take_within : {A : Type 0} (k : ℕ) (xs ys : List A) → k ≤ length xs → take k (xs ++ ys) ≡ take k xs
take_within zero xs ys h = refl
take_within (suc k) [] ys h = absurd (omega arith)
take_within (suc k) (x ∷ xs) ys h = ap (λ t. x ∷ t) (take_within k xs ys (omega arith))

take_beyond :
    {A : Type 0} (k : ℕ) (xs ys : List A) → take (length xs + k) (xs ++ ys) ≡ xs ++ take k ys
take_beyond k [] ys = let e : 0 + k ≡ k = omega arith in ap (λ n. take n ys) e
take_beyond k (x ∷ xs) ys =
    let e : suc (length xs) + k ≡ suc (length xs + k) = omega arith in
    ap (λ n. take n (x ∷ xs ++ ys)) e ∙ ap (λ t. x ∷ t) (take_beyond k xs ys)

module _ {S : Type 0} (fwrite : S → List ℕ → ℕ × S) (file : S → List ℕ) (callback : Bool)
    (bytes_per_pair : ℕ) where
  -- `o'` is `o` after the first `n` of these bytes, and all of them unless an error was reported.
  pub record Written (bytes : List ℕ) (o o' : Out S) : Type 0 where
    pub count : ℕ
    pub in_file : file o'.handle ≡ file o.handle ++ take count bytes
    pub within : count ≤ length bytes
    pub counted : o'.total_bytes_written ≡ add_size o.total_bytes_written count
    pub complete : o'.fatal ≡ false → count ≡ length bytes

  -- A piece that was written whole, and then the rest.
  more_written :
      (piece rest : List ℕ) (o o₁ o' : Out S)
      → file o₁.handle ≡ file o.handle ++ piece
      → o₁.total_bytes_written ≡ add_size o.total_bytes_written (length piece)
      → Written rest o₁ o'
      → Written (piece ++ rest) o o'
  more_written piece rest o o₁ o' e f w =
      let n = w.count in
      let size = length-append piece rest in
      record {
        count = length piece + n;
        in_file =
            w.in_file
            ∙ ap (λ t. t ++ take n rest) e
            ∙ append_assoc (file o.handle) piece (take n rest)
            ∙ ap (λ t. file o.handle ++ t) (sym (take_beyond n piece rest));
        within = omega (arith, size, w.within);
        counted = omega (arith, w.counted, f);
        complete = λ h. omega (arith, w.complete h, size);
      }

  -- A piece of which only `n` bytes were written.
  cut_short :
      (n : ℕ) (handle : S) (piece rest : List ℕ) (o : Out S)
      → Writes fwrite file
      → n ≤ length piece
      → file handle ≡ file o.handle ++ take n piece
      → Written (piece ++ rest) o (record (count_written n handle o) { fatal = true })
  unfolding count_written
  cut_short n handle piece rest o w h e =
      let size = length-append piece rest in
      record {
        count = n;
        in_file = e ∙ ap (λ t. file o.handle ++ t) (sym (take_within n piece rest h));
        within = omega (arith, size, h);
        counted = refl;
        complete = λ f. absurd (true≢false f);
      }

  nothing_more : (o : Out S) → o.total_bytes_written < 2 ^ 64 → Written [] o o
  nothing_more o small = record {
    count = 0;
    in_file = sym (append-nil (file o.handle));
    within = omega arith;
    counted = omega (arith, small);
    complete = λ f. refl;
  }

  -- One round, on a piece of the bytes that is not empty.
  round :
      (fuel : ℕ) (x : ℕ) (piece rest : List ℕ) (o : Out S)
      → Writes fwrite file
      → ((o₁ : Out S)
          → o₁.total_bytes_written < 2 ^ 64
          → (o' : Out S) × (left : List ℕ) × (run_list
                (run_writer fwrite callback bytes_per_pair fuel o₁)
                true
                rest
              ≡ some (exited o', left))
            × Written rest o₁ o')
      → (o' : Out S) × (left : List ℕ) × (run_list
            (write_round fwrite callback bytes_per_pair o
              (run_writer fwrite callback bytes_per_pair fuel)
              (x ∷ piece))
            true
            rest
          ≡ some (exited o', left))
        × Written (x ∷ piece ++ rest) o o'
  unfolding write_round count_written report run_list
  round fuel x piece rest o w next =
      let (written, handle) = fwrite o.handle (x ∷ piece) in
      let counted = count_written written handle o in
      let o₁ = report callback bytes_per_pair counted in
      let grown = w.appends o.handle (x ∷ piece) in
      elim (Bool-cases (written == length (x ∷ piece))) [
        | inl e ↦
            let all = ==→eq written (length (x ∷ piece)) e in
            let same = reported counted in
            let (o', left, ran, more) = next o₁ (omega (arith, same.1)) in
            (
              o',
              left,
              rw e ran,
              more_written (x ∷ piece) rest o o₁ o'
                  (ap file same.0
                    ∙ grown
                    ∙ ap (λ t. file o.handle ++ t)
                        (take_all written (x ∷ piece) (omega (arith, all))))
                  (same.1 ∙ ap (add_size o.total_bytes_written) all) more,
            )
        | inr e ↦ (
          record counted { fatal = true },
          rest,
          rw e refl,
          cut_short written handle (x ∷ piece) rest o w (w.at_most o.handle (x ∷ piece)) grown,
        )
      ]
    where
      reported :
          (c : Out S)
          → ((report callback bytes_per_pair c).handle ≡ c.handle)
            × ((report callback bytes_per_pair c).total_bytes_written ≡ c.total_bytes_written)
      reported c = elim (Bool-cases callback) [
        | inl e ↦ rw e (refl, refl)
        | inr e ↦ rw e (refl, refl)
      ]

  writer_loop :
      (fuel : ℕ) (bytes : List ℕ) (o : Out S)
      → Writes fwrite file
      → o.total_bytes_written < 2 ^ 64
      → length bytes < fuel
      → (o' : Out S) × (left : List ℕ) × (run_list
            (run_writer fwrite callback bytes_per_pair fuel o)
            true
            bytes
          ≡ some (exited o', left))
        × Written bytes o o'
  unfolding run_writer write_round run_list
  writer_loop zero bytes o w small h = absurd (omega arith)
  writer_loop (suc fuel) [] o w small h = (o, [], refl, nothing_more o small)
  writer_loop (suc fuel) (x ∷ bytes) o w small h =
      let piece = take 1048575 bytes in
      let rest = drop 1048575 bytes in
      let (o', left, ran, all) = round fuel x piece rest o w (λ o₁ small₁.
        writer_loop fuel rest o₁ w small₁ (omega (arith, length-drop 1048575 bytes))) in
      (o', left, ran, subst (λ bs. Written (x ∷ bs) o o') (take-append-drop 1048575 bytes) all)

  -- If the file grows by a front of each block that it is given, as long as the result says, then on a
  -- valid ring after the end of the stream and without a shutdown, with more fuel than there are
  -- bytes, the writer's loop comes to its end, and the file has grown by a front of what the ring
  -- held, of as many bytes as were counted (modulo 2 ^ 64): by all of it, unless an error was
  -- reported.
  pub run_writer_lem :
      (fuel : ℕ) {buffer : RingBuffer} (o : Out S)
      → Writes fwrite file
      → IsValid buffer
      → buffer.shutting_down ≡ false
      → buffer.end_of_stream ≡ true
      → o.total_bytes_written < 2 ^ 64
      → length (contents buffer) < fuel
      → (o' : Out S) × (left : List ℕ) × (Option.map view_run
            (run (run_writer fwrite callback bytes_per_pair fuel o) buffer)
          ≡ some (exited o', left))
        × Written (contents buffer) o o'
  run_writer_lem fuel {buffer} o w v alive closed small h =
      let reader = run_writer fwrite callback bytes_per_pair fuel o in
      let (o', left, ran, all) = writer_loop fuel (contents buffer) o w small h in
      (
        o',
        left,
        run_refines reader v alive ∙ ap (λ c. run_list reader c (contents buffer)) closed ∙ ran,
        all,
      )
