-- ===== src/ModuleManager/Options.antt =====
-- The options that are gathered from the modules.
use iq_tool.Prelude.{
  nil_of_length, ℕ, suc, ◌+◌, ◌≤◌, ◌≡◌, refl, ap, sym, ◌∙◌, List, [], ◌∷◌, ◌++◌, Bool, true, false,
  ◌&&◌, Option, some, arith, ltb, if◌then◌else◌, inl, inr, Bool-cases, length, length-append, map,
  append_assoc, append-nil, ltb→le, le→ltb,
}
use iq_tool.ModuleManager.{
  Api, Module, Manager, CliOption, without_value, is_inactive, populate, populate_cli_options,
}

length-map : {A B : Type 0} (f : A → B) (xs : List A) → length (map f xs) ≡ length xs
length-map f [] = refl
length-map f (x ∷ xs) = ap suc (length-map f xs)

module _ (same : List ℕ → List ℕ → Bool) (options_of : Api → List CliOption) (max_opts : ℕ)
    (active : Option (List ℕ)) where
  -- What a module offers: if another input is the active one, its options have no values.
  pub offered_by : Module → List CliOption
  offered_by m =
      let opts = options_of m.api in
      if m.get_cli_options
      then (if is_inactive same active m then map without_value opts else opts)
      else []

  pub offered : List Module → List CliOption
  offered [] = []
  offered (m ∷ ms) = offered_by m ++ offered ms

  cleared_or_not : Module → List CliOption
  cleared_or_not m =
      let opts = options_of m.api in
      if is_inactive same active m then map without_value opts else opts

  length-cleared : (m : Module) → length (cleared_or_not m) ≡ length (options_of m.api)
  unfolding cleared_or_not
  length-cleared m = elim (Bool-cases (is_inactive same active m)) [
    | inl e ↦ rw e (length-map without_value (options_of m.api))
    | inr e ↦ rw e refl
  ]

  populate_bounded :
      (ms : List Module) (dest : List CliOption)
      → length dest ≤ max_opts
      → length (populate same options_of max_opts active ms dest) ≤ max_opts
  unfolding populate cleared_or_not
  populate_bounded [] dest h = h
  populate_bounded (m ∷ ms) dest h =
      let longer = length-append dest (cleared_or_not m) in
      let opts = options_of m.api in
      elim (Bool-cases (m.get_cli_options && ltb 0 (length opts))) [
        | inr e ↦ rw e (populate_bounded ms dest h)
        | inl e ↦ rw e (elim (Bool-cases (ltb max_opts (length dest + length opts))) [
          | inl f ↦ rw f h
          | inr f ↦ rw f (
              populate_bounded ms (dest ++ cleared_or_not m) (
                omega
                  (arith, longer, length-cleared m, ltb→le max_opts (length dest + length opts) f)))
        ])
      ]

  -- One round, for a module with options (`offers`) or without.
  one_module :
      (offers : Bool) (opts given dest rest more skipped : List CliOption)
      → length given ≡ length opts
      → length dest + length ((if offers then given else []) ++ rest) ≤ max_opts
      → (length (dest ++ given) + length rest ≤ max_opts → more ≡ (dest ++ given) ++ rest)
      → (length dest + length rest ≤ max_opts → skipped ≡ dest ++ rest)
      → (if offers && ltb 0 (length opts)
          then (if ltb max_opts (length dest + length opts) then dest else more)
          else skipped)
        ≡ dest ++ ((if offers then given else []) ++ rest)
  one_module false opts given dest rest more skipped size h m s = s h
  one_module true opts given dest rest more skipped size h m s =
      let total = length-append given rest in
      elim (Bool-cases (ltb 0 (length opts))) [
        | inr f ↦
            let none_there = nil_of_length given (omega (arith, size, ltb→le 0 (length opts) f)) in
            rw f (s (omega (arith, h, total)) ∙ ap (λ xs. dest ++ (xs ++ rest)) (sym none_there))
        | inl f ↦
            let longer = length-append dest given in
            let fits =
              le→ltb max_opts (length dest + length opts) (omega (arith, h, total, size)) in
            rw f (rw fits (m (omega (arith, h, total, longer)) ∙ append_assoc dest given rest))
      ]

  populate_all :
      (ms : List Module) (dest : List CliOption)
      → length dest + length (offered ms) ≤ max_opts
      → populate same options_of max_opts active ms dest ≡ dest ++ offered ms
  unfolding populate cleared_or_not offered offered_by
  populate_all [] dest h = sym (append-nil dest)
  populate_all (m ∷ ms) dest h =
      let given = cleared_or_not m in
      one_module m.get_cli_options (options_of m.api) given dest (offered ms)
        (populate same options_of max_opts active ms (dest ++ given))
        (populate same options_of max_opts active ms dest) (length-cleared m) h
        (λ k. populate_all ms (dest ++ given) k) (λ k. populate_all ms dest k)

  -- The buffer, which has room for what is in it, never runs over, and if there is room for what all
  -- modules offer, it ends with exactly that, in order: the options of each module that has any, and
  -- without values where another input is the active one.
  pub populate_cli_options_lem :
      (modules : List Module) (initialized : Bool) (dest : List CliOption)
      → length dest ≤ max_opts
      → let g : Manager = record {
        all_modules = some modules;
        modules_initialized = initialized;
      } in
        let filled = populate_cli_options same options_of max_opts active g dest in
        (length filled ≤ max_opts)
        × (length dest + length (offered modules) ≤ max_opts → filled ≡ dest ++ offered modules)
  unfolding populate_cli_options
  populate_cli_options_lem modules initialized dest h =
      (populate_bounded modules dest h, λ k. populate_all modules dest k)
