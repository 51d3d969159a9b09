-- ===== src/Pipeline/Runs.antt =====
-- The threads together, in any order of their accesses.
use iq_tool.Prelude.{ℕ, ◌+◌, ◌<◌, ◌≡◌, refl, ◌∙◌, subst, List, [], ◌∷◌, ◌++◌, true, some, arith}
use iq_tool.Pipeline.{Answer, Act, finish, World, step}
use mathlib.Core.Option.{some-injective}
use iq_tool.Pipeline.Ownership.{
  own_load, own_store, own_process, touched, own_get, own_poll, own_put, own_shut, own_writer_ring,
  own_sdr_ring, own_size, own_flags, own_error, own_shutdown, own_finish, count, Owns, held_after,
  count-append,
}
use iq_tool.Pipeline.Places.{queued, AllValid, Kept, KeptIfAny}
use iq_tool.Pipeline.Steps.{step_keeps}

-- A thread: its loop's body, what is left of the round, the pointers that it holds, and those
-- that earlier rounds have left behind.
pub record Thread : Type 0 where
  pub body : Act
  pub now : Act
  pub held : List ℕ
  pub left : List ℕ

-- Before its first access.
abbrev pub spawned : Act → Thread
spawned body = record { body = body; now = body; held = []; left = [] }

abbrev pub advanced : World → Thread → Act → Thread
advanced w t next = record t { now = next; held = held_after w t.now t.held }

-- The next round starts.
abbrev pub restarted : Thread → Thread
restarted t = record t { now = t.body; held = []; left = t.held ++ t.left }

-- One thread makes an access that it does not have to wait for, or starts its next round.
pub data Moves : World → List Thread → World → List Thread → Type 0 where
  moves :
      (w : World) (before after : List Thread) (t : Thread) (answer : Answer) {w' : World}
      {next : Act}
      → step w answer t.now ≡ some (w', next)
      → Moves w (before ++ t ∷ after) w' (before ++ advanced w t next ∷ after)
  restarts :
      (w : World) (before after : List Thread) (t : Thread)
      → t.now ≡ finish true
      → Moves w (before ++ t ∷ after) w (before ++ restarted t ∷ after)

pub data Runs (w₀ : World) (ts₀ : List Thread) : World → List Thread → Type 0 where
  start : Runs w₀ ts₀ w₀ ts₀
  then_moves :
      {w w' : World} {ts ts' : List Thread}
      → Runs w₀ ts₀ w ts
      → Moves w ts w' ts'
      → Runs w₀ ts₀ w' ts'

-- How often a pointer is held or left behind by a thread, and by any.
unfoldable pub kept_by : Thread → ℕ → ℕ
kept_by t x = count x t.held + count x t.left

unfoldable pub kept_by_all : List Thread → ℕ → ℕ
kept_by_all [] x = 0
kept_by_all (t ∷ ts) x = kept_by t x + kept_by_all ts x

-- Each thread's code keeps to what it holds, now and from the start of a round.
pub record Orderly (t : Thread) : Type 0 where
  pub owned : Owns t.held t.now
  pub fresh : Owns [] t.body

pub data AllOrderly : List Thread → Type 0 where
  none_left : AllOrderly []
  one_more : {t : Thread} {ts : List Thread} → Orderly t → AllOrderly ts → AllOrderly (t ∷ ts)

pub kept_by_all-append :
    (before after : List Thread) (x : ℕ)
    → kept_by_all (before ++ after) x ≡ kept_by_all before x + kept_by_all after x
unfolding kept_by_all
kept_by_all-append [] after x = omega arith
kept_by_all-append (t ∷ before) after x = omega (arith, kept_by_all-append before after x)

pub AllOrderly-at :
    (before after : List Thread) (t : Thread) → AllOrderly (before ++ t ∷ after) → Orderly t
AllOrderly-at [] after t (one_more o os) = o
AllOrderly-at (s ∷ before) after t (one_more o os) = AllOrderly-at before after t os

AllOrderly-set :
    (before after : List Thread) (t t' : Thread)
    → AllOrderly (before ++ t ∷ after)
    → Orderly t'
    → AllOrderly (before ++ t' ∷ after)
AllOrderly-set [] after t t' (one_more o os) o' = one_more o' os
AllOrderly-set (s ∷ before) after t t' (one_more o os) o' =
    one_more o (AllOrderly-set before after t t' os o')

-- An access that is made keeps the number of each pointer.
advance_keeps :
    (w : World) (answer : Answer) (t : Thread) {w' : World} {next : Act}
    → AllValid w
    → Orderly t
    → step w answer t.now ≡ some (w', next)
    → Kept w t.held w' (held_after w t.now t.held) next
unfolding KeptIfAny
advance_keeps w answer t v o e =
    subst (KeptIfAny w t.held (held_after w t.now t.held)) e (step_keeps w answer v o.owned)

-- What every move keeps.
pub record Sound (w : World) (ts : List Thread) (w' : World) (ts' : List Thread) : Type 0 where
  pub valid : AllValid w'
  pub orderly : AllOrderly ts'
  pub same : (x : ℕ) → queued w' x + kept_by_all ts' x ≡ queued w x + kept_by_all ts x

pub Moves-Sound :
    {w w' : World} {ts ts' : List Thread}
    → AllValid w
    → AllOrderly ts
    → Moves w ts w' ts'
    → Sound w ts w' ts'
unfolding kept_by_all kept_by queued count
Moves-Sound v os (moves w before after t answer {w' = w'} {next = next} e) =
    let o = AllOrderly-at before after t os in
    let k = advance_keeps w answer t v o e in
    record {
      valid = k.valid;
      orderly = AllOrderly-set before after t _ os (record { owned = k.owned; fresh = o.fresh });
      same = λ x. omega (
        arith,
        k.same x,
        kept_by_all-append before (t ∷ after) x,
        kept_by_all-append before (advanced w t next ∷ after) x,
      );
    }
Moves-Sound v os (restarts w before after t e) =
    let o = AllOrderly-at before after t os in
    record {
      valid = v;
      orderly = AllOrderly-set before after t _ os (record { owned = o.fresh; fresh = o.fresh });
      same = λ x. omega (
        arith,
        count-append x t.held t.left,
        kept_by_all-append before (t ∷ after) x,
        kept_by_all-append before (restarted t ∷ after) x,
      );
    }

pub Runs-Sound :
    {w₀ : World} {ts₀ : List Thread} {w : World} {ts : List Thread}
    → AllValid w₀
    → AllOrderly ts₀
    → Runs w₀ ts₀ w ts
    → Sound w₀ ts₀ w ts
Runs-Sound v os start = record { valid = v; orderly = os; same = λ x. refl }
Runs-Sound v os (then_moves r m) =
    let s = Runs-Sound v os r in
    let s' = Moves-Sound s.valid s.orderly m in
    record { valid = s'.valid; orderly = s'.orderly; same = λ x. s'.same x ∙ s.same x }

-- A thread holds the chunk that it works on.
pub touched-held :
    {held : List ℕ} {act : Act} {x : ℕ} → Owns held act → touched act ≡ some x → 0 < count x held
unfolding touched
touched-held {held} (own_load h o) e = subst (λ y. 0 < count y held) (some-injective _ _ e) h
touched-held {held} (own_store h o) e = subst (λ y. 0 < count y held) (some-injective _ _ e) h
touched-held {held} (own_process h o) e = subst (λ y. 0 < count y held) (some-injective _ _ e) h
touched-held (own_get o o') e = ground arith
touched-held (own_poll o o') e = ground arith
touched-held (own_put h o o') e = ground arith
touched-held (own_shut o) e = ground arith
touched-held (own_writer_ring o) e = ground arith
touched-held (own_sdr_ring o) e = ground arith
touched-held (own_size o) e = ground arith
touched-held (own_flags o) e = ground arith
touched-held (own_error o) e = ground arith
touched-held (own_shutdown o) e = ground arith
touched-held own_finish e = ground arith
