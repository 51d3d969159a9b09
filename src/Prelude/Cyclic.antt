-- ===== src/Prelude/Cyclic.antt =====
-- Windows of an array whose indices go round at its capacity.
use Prim.Native.Nat.{ℕ, ◌+◌, ◌-◌, ◌%◌, ◌≤◌, ◌<◌}
use mathlib.Core.Path.{◌≡◌, ap, ◌∙◌}
use mathlib.Core.List.{List, ◌++◌}
use native.Mathlib.Nat.{mod-eq_of_lt, mod-eq-sub-mod}
use native.Mathlib.Decide.{dec_lt}
use native.Mathlib.Omega.{arith}
use iq_tool.Prelude.Tests.{ltb, if◌then◌else◌, lt→ltb, le→ltb}
use iq_tool.Prelude.Lists.{get_or, tabulate, tabulate_cong, tabulate-append}

-- The index `i` steps on from 0, for `i` below twice the capacity.
abbrev pub index : ℕ → ℕ → ℕ
index cap i = if ltb i cap then i else i - cap

pub mod-eq-index : (i cap : ℕ) → i < cap + cap → i % cap ≡ index cap i
mod-eq-index i cap h = elim (dec_lt i cap) [
  | yes p ↦ rw (lt→ltb i cap p) (mod-eq_of_lt p)
  | no p ↦
      let q : cap ≤ i = omega arith in
      rw (le→ltb i cap q)
        (mod-eq-sub-mod {n = i} {m = cap} q ∙ mod-eq_of_lt {n = i - cap} {m = cap} (omega arith))
]

-- The `n` elements from index `h` on.
abbrev pub window : List ℕ → ℕ → ℕ → ℕ → List ℕ
window buf cap h n = tabulate (λ k. get_or buf (index cap (h + k)) 0) n

-- A window from `h` splits at `m`, and its second part starts where the first one ends.
pub window-append :
    (buf : List ℕ) (cap h m n : ℕ)
    → h < cap
    → m + n ≤ cap
    → window buf cap h (m + n) ≡ window buf cap h m ++ window buf cap ((h + m) % cap) n
window-append buf cap h m n hh hm =
    tabulate-append (λ k. get_or buf (index cap (h + k)) 0) m n
    ∙ ap (λ t. window buf cap h m ++ t)
        (tabulate_cong _ _ n (λ k hk.
          ap (λ i. get_or buf i 0) (ground (arith, mod-eq-index (h + m) cap (omega arith)))))

-- Windows agree where the arrays do.
pub window_cong :
    (buf buf' : List ℕ) (cap h n : ℕ)
    → ((k : ℕ) → k < n → get_or buf (index cap (h + k)) 0 ≡ get_or buf' (index cap (h + k)) 0)
    → window buf cap h n ≡ window buf' cap h n
window_cong buf buf' cap h n e = tabulate_cong _ _ n e
