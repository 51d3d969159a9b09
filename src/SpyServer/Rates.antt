-- ===== src/SpyServer/Rates.antt =====
-- `spyserver_client_initialize`, the negotiation of the sample rate and the configuration of the
-- device. The floating-point numbers and the operations on them are parameters.
use iq_tool.Prelude.{
  ℕ, zero, suc, ◌+◌, ◌≤◌, ◌<◌, ◌≡◌, refl, sym, inl, inr, List, [], ◌∷◌, Bool, true, false, Option,
  none, some, arith, leb, if◌then◌else◌, Bool-cases, leb→le, leb→gt, le→leb, ap, ◌==◌, ==→eq, ==→ne,
  subst,
}

-- `rate max_sr i`: the maximal rate over `1 << i`; `distance`: `fabs` of the difference; `less`: `<`.
module _ {D : Type 0} (rate : ℕ → ℕ → D) (distance : D → D → D) (less : D → D → Bool) where
  -- The loop that fills `supported_rates`, which has room for 32.
  unfoldable pub supported_rates : ℕ → ℕ → ℕ → ℕ → List D
  supported_rates zero max_sr i dec_count = []
  supported_rates (suc room) max_sr i dec_count =
      let rest = supported_rates room max_sr (suc i) dec_count in
      if leb i dec_count then rate max_sr i ∷ rest else []

  -- The loop for the closest one: `min_diff`, `best_rate_idx` and its rate, and the index of the next.
  unfoldable pub closest_rate : D → D → ℕ → D → ℕ → List D → ℕ × D
  closest_rate user_rate min_diff best best_rate i [] = (best, best_rate)
  closest_rate user_rate min_diff best best_rate i (r ∷ rates) =
      let diff = distance r user_rate in
      let changed = closest_rate user_rate diff i r (suc i) rates in
      let kept = closest_rate user_rate min_diff best best_rate (suc i) rates in
      if less diff min_diff then changed else kept

  -- The rate that the user wants, if it is positive; else the first one.
  unfoldable pub wanted_rate : Option D → D → D
  wanted_rate none first = first
  wanted_rate (some user_rate) first = user_rate

  unfoldable pub rate_of : ℕ → Option D → List D → Option (ℕ × D)
  rate_of min_dec asked [] = none
  rate_of min_dec asked (first ∷ rates) =
      let user_rate = wanted_rate asked first in
      let best = closest_rate user_rate (distance first user_rate) 0 first 1 rates in
      some (min_dec + best.0, best.1)

  -- `dec_index_to_send` and `actual_rate`; `none`: there is no rate, and the code reads an entry of
  -- `supported_rates` that was never written.
  unfoldable pub negotiate_rate : ℕ → ℕ → ℕ → Option D → Option (ℕ × D)
  negotiate_rate max_sr min_dec dec_count asked =
      rate_of min_dec asked (supported_rates 32 max_sr min_dec dec_count)

  module _ (asym : (a b : D) → less a b ≡ true → less b a ≡ false)
      (trans : (a b c : D) → less a b ≡ false → less b c ≡ false → less a c ≡ false) where
    irrefl : (a : D) → less a a ≡ false
    irrefl a = elim (Bool-cases (less a a)) [ inl e ↦ asym a a e | inr e ↦ e ]

    -- What the loop finds of the rates from the decimation `at` on.
    Closest : ℕ → ℕ → ℕ → D → ℕ → ℕ → D → ℕ × D → Type 0
    Closest max_sr min_dec dec_count user_rate room at best_rate found =
        (min_dec + found.0 ≤ dec_count)
        × ((found.1 ≡ rate max_sr (min_dec + found.0))
            × ((less (distance best_rate user_rate) (distance found.1 user_rate) ≡ false)
                × ((d : ℕ)
                    → at ≤ d
                    → d ≤ dec_count
                    → d < at + room
                    → less (distance (rate max_sr d) user_rate) (distance found.1 user_rate)
                      ≡ false)))

    -- The rate at hand is looked at, and another one is closer, or it is itself.
    one_more :
        (max_sr min_dec dec_count : ℕ) (user_rate : D) (room at : ℕ) (best_rate chosen : D)
        (found : ℕ × D)
        → less (distance best_rate user_rate) (distance chosen user_rate) ≡ false
        → less (distance (rate max_sr at) user_rate) (distance chosen user_rate) ≡ false
        → Closest max_sr min_dec dec_count user_rate room (suc at) chosen found
        → Closest max_sr min_dec dec_count user_rate (suc room) at best_rate found
    unfolding Closest
    one_more max_sr min_dec dec_count user_rate room at best_rate chosen found old here
          (p, (q, (r, s))) =
        (
          p,
          (
            q,
            (
              trans _ _ _ old r,
              λ d a b c. elim (Bool-cases (d == at)) [
                | inl e ↦
                    subst
                      (λ k.
                        less (distance (rate max_sr k) user_rate) (distance found.1 user_rate)
                        ≡ false)
                      (sym (==→eq d at e)) (trans _ _ _ here r)
                | inr e ↦ s d (omega (arith, ==→ne d at e)) b (omega arith)
              ],
            ),
          ),
        )

    closest_rate_lem :
        (max_sr min_dec dec_count : ℕ) (user_rate : D) (room i at best : ℕ) (best_rate : D)
        → at ≡ min_dec + i
        → min_dec + best ≤ dec_count
        → best_rate ≡ rate max_sr (min_dec + best)
        → Closest max_sr min_dec dec_count user_rate room at best_rate (
            closest_rate user_rate
              (distance best_rate user_rate)
              best
              best_rate
              i
              (supported_rates room max_sr at dec_count))
    unfolding closest_rate supported_rates Closest
    closest_rate_lem max_sr min_dec dec_count user_rate zero i at best best_rate e h f =
        (h, (f, (irrefl _, λ d a b c. absurd (omega arith))))
    closest_rate_lem max_sr min_dec dec_count user_rate (suc room) i at best best_rate e h f =
        elim (Bool-cases (leb at dec_count)) [
          | inr out ↦
              rw out
                (h, (f, (irrefl _, λ d a b c. absurd (omega (arith, leb→gt at dec_count out)))))
          | inl more ↦ rw more (elim (Bool-cases (less here old)) [
            | inl nearer ↦ rw nearer (
                one_more max_sr min_dec dec_count user_rate room at best_rate (rate max_sr at) _
                  (asym _ _ nearer) (irrefl _)
                  (closest_rate_lem max_sr min_dec dec_count user_rate room (suc i) (suc at) i
                    (rate max_sr at) (omega arith) (omega (arith, leb→le at dec_count more))
                    (ap (rate max_sr) e)))
            | inr further ↦ rw further (
                one_more max_sr min_dec dec_count user_rate room at best_rate best_rate _ (irrefl _)
                  further
                  (closest_rate_lem max_sr min_dec dec_count user_rate room (suc i) (suc at) best
                    best_rate (omega arith) h f))
          ])
        ]
      where
        here : D
        here = distance (rate max_sr at) user_rate

        old : D
        old = distance best_rate user_rate

    -- If there is a decimation at all, then the one that is chosen lies within the server's bounds,
    -- the actual rate is the one of this decimation, and none of the first 32 decimations within the
    -- bounds has a rate closer to the one that the user wants, where `<` is asymmetric and its
    -- negation transitive, as they are on numbers.
    pub negotiate_rate_lem :
        (max_sr min_dec dec_count : ℕ) (asked : Option D)
        → min_dec ≤ dec_count
        → (found : ℕ × D) × (negotiate_rate max_sr min_dec dec_count asked ≡ some found)
          × ((min_dec ≤ found.0)
              × ((found.0 ≤ dec_count)
                  × ((found.1 ≡ rate max_sr found.0)
                      × ((d : ℕ)
                          → min_dec ≤ d
                          → d ≤ dec_count
                          → d < min_dec + 32
                          → less
                              (distance (rate max_sr d) (wanted_rate asked (rate max_sr min_dec)))
                              (distance found.1 (wanted_rate asked (rate max_sr min_dec)))
                            ≡ false))))
    unfolding negotiate_rate supported_rates rate_of Closest
    negotiate_rate_lem max_sr min_dec dec_count asked h =
        let user_rate = wanted_rate asked (rate max_sr min_dec) in
        let first = rate max_sr min_dec in
        let best =
          closest_rate user_rate (distance first user_rate) 0 first 1
            (supported_rates 31 max_sr (suc min_dec) dec_count) in
        let there : leb min_dec dec_count ≡ true = le→leb min_dec dec_count h in
        let (p, (q, (r, s))) =
          one_more max_sr min_dec dec_count user_rate 31 min_dec first first best (irrefl _)
            (irrefl _)
            (closest_rate_lem max_sr min_dec dec_count user_rate 31 1 (suc min_dec) 0 first
              (omega arith) (omega arith) (ap (rate max_sr) (omega arith))) in
        ((min_dec + best.0, best.1), rw there refl, (omega arith, (p, (q, s))))
