-- ===== src/ModuleManager/Lookup.antt =====
-- Which module is found for a name.
use mathlib.Core.Option.{some-injective, none-ne-some}
use mathlib.Core.Bool.{true≢false}
use mathlib.Core.List.{Memᴰ}
use iq_tool.Prelude.{
  ℕ, ◌≡◌, ◌↔◌, refl, ap, ap₂, sym, ◌∙◌, subst, List, [], ◌∷◌, Bool, true, false, not, ◌&&◌, ◌||◌,
  none, some, arith, ◌==◌, if◌then◌else◌, inl, inr, Bool-cases, ==→eq, eq→==,
}
use iq_tool.Text.{equal_folded, to_lower}
use iq_tool.ModuleManager.{
  ModuleType, input, output, same_type, Module, Build, temp_modules, initialize_modules_list,
  find_module, find_module_by_name_and_type,
}

-- The module has the type and, but for the case of its letters, the name.
unfoldable pub matches : List ℕ → ModuleType → Module → Bool
matches name type m = same_type m.module_type type && equal_folded name m.name

equal_folded_twice :
    (a b c : List ℕ) → equal_folded a b ≡ true → equal_folded a c ≡ true → equal_folded b c ≡ true
unfolding equal_folded
equal_folded_twice [] [] [] h k = refl
equal_folded_twice [] [] (z ∷ c) h k = cc
equal_folded_twice [] (y ∷ b) c h k = cc
equal_folded_twice (x ∷ a) [] c h k = cc
equal_folded_twice (x ∷ a) (y ∷ b) [] h k = cc
equal_folded_twice (x ∷ a) (y ∷ b) (z ∷ c) h k =
    both (to_lower x) (to_lower y) (to_lower z) _ _ _ (equal_folded_twice a b c) h k
  where
    both :
        (p q r : ℕ) (u v w : Bool)
        → (u ≡ true → v ≡ true → w ≡ true)
        → ((p == q) && u) ≡ true
        → ((p == r) && v) ≡ true
        → ((q == r) && w) ≡ true
    both p q r u v w next h k =
        let e : (p == q) ≡ true = ground arith in
        let f : (p == r) ≡ true = ground arith in
        let g : w ≡ true = next (ground arith) (ground arith) in
        rw (eq→== q r (sym (==→eq p q e) ∙ ==→eq p r f)) g

same_type_twice :
    (a b t : ModuleType) → same_type a t ≡ true → same_type b t ≡ true → same_type a b ≡ true
same_type_twice input input t h k = refl
same_type_twice output output t h k = refl
same_type_twice input output input h k = cc
same_type_twice input output output h k = cc
same_type_twice output input input h k = cc
same_type_twice output input output h k = cc

-- No two modules of one type have the same name.
clashes : Module → List Module → Bool
clashes h [] = false
clashes h (m ∷ ms) =
    (same_type m.module_type h.module_type && equal_folded m.name h.name) || clashes h ms

distinct : List Module → Bool
distinct [] = true
distinct (m ∷ ms) = not (clashes m ms) && distinct ms

distinct_modules :
    (r s h l : Bool)
    → distinct (
        temp_modules
          (record { with_rtlsdr = r; with_sdrplay = s; with_hackrf = h; with_bladerf = l }))
      ≡ true
unfolding distinct clashes temp_modules equal_folded
distinct_modules true true true true = refl
distinct_modules true true true false = refl
distinct_modules true true false true = refl
distinct_modules true true false false = refl
distinct_modules true false true true = refl
distinct_modules true false true false = refl
distinct_modules true false false true = refl
distinct_modules true false false false = refl
distinct_modules false true true true = refl
distinct_modules false true true false = refl
distinct_modules false true false true = refl
distinct_modules false true false false = refl
distinct_modules false false true true = refl
distinct_modules false false true false = refl
distinct_modules false false false true = refl
distinct_modules false false false false = refl

no_clash :
    (name : List ℕ) (type : ModuleType) (h m : Module) (ms : List Module)
    → clashes h ms ≡ false
    → Memᴰ m ms
    → matches name type h ≡ true
    → matches name type m ≡ true
    → true ≡ false
unfolding clashes matches
no_clash name type h m [] c there p q = elim there [ ]
no_clash name type h m (n ∷ ms) c (Memᴰ.head e) p q =
    let here : (same_type n.module_type h.module_type && equal_folded n.name h.name) ≡ false =
      ground arith in
    let q' : matches name type n ≡ true = subst (λ k. matches name type k ≡ true) e q in
    let t = same_type_twice n.module_type h.module_type type (ground arith) (ground arith) in
    let f = equal_folded_twice name n.name h.name (ground arith) (ground arith) in
    sym (ap₂ (λ a b. a && b) t f) ∙ here
no_clash name type h m (n ∷ ms) c (Memᴰ.tail e) p q = no_clash name type h m ms (ground arith) e p q

found :
    (name : List ℕ) (type : ModuleType) (m : Module) (ms : List Module)
    → find_module equal_folded name type ms ≡ some m
    → Memᴰ m ms × (matches name type m ≡ true)
unfolding find_module matches
found name type m [] e = absurd (none-ne-some m e)
found name type m (n ∷ ms) e = elim (Bool-cases (matches name type n)) [
  | inl h ↦
      let same : n ≡ m =
        some-injective n m (
          subst (λ b. (if b then some n else find_module equal_folded name type ms) ≡ some m) h
            e) in
      (Memᴰ.head (sym same), subst (λ k. matches name type k ≡ true) same h)
  | inr h ↦
      let (there, good) =
        found name type m ms (
          subst (λ b. (if b then some n else find_module equal_folded name type ms) ≡ some m) h
            e) in
      (Memᴰ.tail there, good)
]

unique :
    (name : List ℕ) (type : ModuleType) (m : Module) (ms : List Module)
    → distinct ms ≡ true
    → Memᴰ m ms
    → matches name type m ≡ true
    → find_module equal_folded name type ms ≡ some m
unfolding find_module matches distinct
unique name type m [] d there h = elim there [ ]
unique name type m (n ∷ ms) d (Memᴰ.head e) h =
    let h' : matches name type n ≡ true = subst (λ k. matches name type k ≡ true) e h in
    rw h' (ap some (sym e))
unique name type m (n ∷ ms) d (Memᴰ.tail e) h = elim (Bool-cases (matches name type n)) [
  | inl k ↦ absurd (true≢false (no_clash name type n m ms (ground arith) e k h))
  | inr k ↦ rw k (unique name type m ms (ground arith) e h)
]

-- After the initialisation with room for the list, the module that is found for a name and a type is
-- the one of the table that has this type and, but for the case of the letters, this name: there is
-- never a second one, whichever radios are compiled in. `same` is what strcasecmp finds equal.
pub find_module_iff :
    (same : List ℕ → List ℕ → Bool) (b : Build) (name : List ℕ) (type : ModuleType) (m : Module)
    → same ≡ equal_folded
    → (find_module_by_name_and_type same (some name) type (
          initialize_modules_list b true
            (record { all_modules = none; modules_initialized = false }))
        ≡ some m)
      ↔ (Memᴰ m (temp_modules b) × (matches name type m ≡ true))
unfolding find_module_by_name_and_type initialize_modules_list
find_module_iff same b name type m posix = rw posix (
  λ e. found name type m (temp_modules b) e,
  λ (there, good).
      unique name type m (temp_modules b)
        (distinct_modules b.with_rtlsdr b.with_sdrplay b.with_hackrf b.with_bladerf) there good,
)
