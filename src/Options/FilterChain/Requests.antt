-- ===== src/Options/FilterChain/Requests.antt =====
-- The chain against the list of all the filters that are asked for.
use mathlib.Core.Option
use iq_tool.Prelude.{
  ℕ, zero, suc, ◌≤◌, ◌≡◌, refl, ap, sym, ◌∙◌, List, [], ◌∷◌, ◌++◌, Option, none, some, arith, ltb,
  inl, inr, Bool-cases, ltb→le, ltb→lt, length, take, append_assoc, append-nil, length-append,
  length-take, take_all,
}
use iq_tool.Options.FilterChain.{
  FilterType, lowpass, highpass, passband, stopband, FilterRequest, FilterArgs, max_filter_chain,
  Floats, parse_start_end_string, add_filter_request, add_cutoff, add_parsed, add_range,
  add_filters, filter_chain,
}

take_front : {A : Type 0} (k : ℕ) (xs ys : List A) → k ≤ length xs → take k (xs ++ ys) ≡ take k xs
take_front zero xs ys h = refl
take_front (suc k) [] ys h = absurd (omega arith)
take_front (suc k) (x ∷ xs) ys h = ap (λ t. x ∷ t) (take_front k xs ys (omega arith))

module _ {D : Type 0} (floats : Floats D) where
  abbrev request : FilterType → D → D → FilterRequest D
  request type f1 f2 = record { filter_type = type; freq1_hz = f1; freq2_hz = f2 }

  -- What one argument asks for; `none`: it is malformed.
  pub of_cutoff : FilterType → Option D → List (FilterRequest D)
  of_cutoff type none = []
  of_cutoff type (some f) = request type f floats.zero_hz ∷ []

  pub of_range : FilterType → Option (List ℕ) → Option (List (FilterRequest D))
  of_range type none = some []
  of_range type (some text) =
      Option.map (λ r. request type (floats.center r.0 r.1) (floats.bandwidth r.0 r.1) ∷ [])
        (parse_start_end_string floats text)

  abbrev joined :
      Option (List (FilterRequest D))
      → Option (List (FilterRequest D))
      → Option (List (FilterRequest D))
  joined none rs = none
  joined (some qs) rs = Option.map (λ ws. qs ++ ws) rs

  -- What all of them ask for, in the order of the options.
  pub all_requests : List (FilterArgs D) → Option (List (FilterRequest D))
  all_requests [] = some []
  all_requests (a ∷ args) = joined (some (of_cutoff lowpass a.lowpass_cutoff_hz_arg)) (
      joined (some (of_cutoff highpass a.highpass_cutoff_hz_arg)) (
        joined (of_range passband a.pass_range_str_arg)
          (joined (of_range stopband a.stopband_str_arg) (all_requests args))))

  abbrev first_five : List (FilterRequest D) → List (FilterRequest D)
  first_five = take max_filter_chain

  abbrev after :
      List (FilterRequest D) → Option (List (FilterRequest D)) → Option (List (FilterRequest D))
  after xs rs = Option.map (λ ws. first_five (xs ++ ws)) rs

  request_added :
      (type : FilterType) (f1 f2 : D) (xs : List (FilterRequest D))
      → add_filter_request floats type f1 f2 (first_five xs)
        ≡ first_five (xs ++ (request type f1 f2 ∷ []))
  unfolding add_filter_request
  request_added type f1 f2 xs =
      let r = request type f1 f2 in
      let size = length-take max_filter_chain xs in
      let longer = length-append xs (r ∷ []) in
      elim (Bool-cases (ltb (length (first_five xs)) max_filter_chain)) [
        | inl e ↦
            let short = ltb→lt (length (first_five xs)) max_filter_chain e in
            let same = take_all max_filter_chain xs (omega (arith, size, short)) in
            rw e (
              ap (λ t. t ++ (r ∷ [])) same
              ∙ sym
                  (take_all max_filter_chain (xs ++ (r ∷ [])) (omega (arith, size, short, longer))))
        | inr e ↦
            let long = ltb→le (length (first_five xs)) max_filter_chain e in
            rw e (sym (take_front max_filter_chain xs (r ∷ []) (omega (arith, size, long))))
      ]

  cutoff_added :
      (type : FilterType) (f : Option D) (xs : List (FilterRequest D))
      → add_cutoff floats type f (first_five xs) ≡ first_five (xs ++ of_cutoff type f)
  unfolding add_cutoff of_cutoff
  cutoff_added type none xs = ap first_five (sym (append-nil xs))
  cutoff_added type (some f) xs = request_added type f floats.zero_hz xs

  range_added :
      (type : FilterType) (text : Option (List ℕ)) (xs : List (FilterRequest D))
      → add_range floats type text (first_five xs) ≡ after xs (of_range type text)
  unfolding add_range of_range add_parsed
  range_added type none xs = ap (λ t. some (first_five t)) (sym (append-nil xs))
  range_added type (some text) xs = parsed (parse_start_end_string floats text)
    where
      parsed :
          (o : Option (D × D))
          → add_parsed floats type o (first_five xs)
            ≡ after xs (
                Option.map
                  (λ r. request type (floats.center r.0 r.1) (floats.bandwidth r.0 r.1) ∷ [])
                  o)
      parsed none = refl
      parsed (some (a, b)) =
          ap some (request_added type (floats.center a b) (floats.bandwidth a b) xs)

  -- One part of the chain, and then the others.
  after_part :
      (xs : List (FilterRequest D)) (part rest : Option (List (FilterRequest D)))
      (next : List (FilterRequest D) → Option (List (FilterRequest D)))
      → ((ys : List (FilterRequest D)) → next (first_five ys) ≡ after ys rest)
      → Option.bind (after xs part) next ≡ after xs (joined part rest)
  unfolding Option.bind
  after_part xs none rest next h = refl
  after_part xs (some qs) rest next h = h (xs ++ qs) ∙ regroup rest
    where
      regroup :
          (o : Option (List (FilterRequest D)))
          → after (xs ++ qs) o ≡ after xs (Option.map (λ ws. qs ++ ws) o)
      regroup none = refl
      regroup (some ws) = ap (λ t. some (first_five t)) (append_assoc xs qs ws)

  bind_assoc :
      (o : Option (List (FilterRequest D)))
      (f g : List (FilterRequest D) → Option (List (FilterRequest D)))
      → Option.bind (Option.bind o f) g ≡ Option.bind o (λ r. Option.bind (f r) g)
  unfolding Option.bind
  bind_assoc none f g = refl
  bind_assoc (some r) f g = refl

  -- The chain from what has been asked for so far.
  filter_chain-after :
      (args : List (FilterArgs D)) (xs : List (FilterRequest D))
      → filter_chain floats args (first_five xs) ≡ after xs (all_requests args)
  unfolding filter_chain all_requests add_filters
  filter_chain-after [] xs = ap (λ t. some (first_five t)) (sym (append-nil xs))
  filter_chain-after (a ∷ args) xs =
      let low = of_cutoff lowpass a.lowpass_cutoff_hz_arg in
      let high = of_cutoff highpass a.highpass_cutoff_hz_arg in
      let rest = all_requests args in
      let stop = of_range stopband a.stopband_str_arg in
      let cutoffs =
        ap (add_cutoff floats highpass a.highpass_cutoff_hz_arg)
          (cutoff_added lowpass a.lowpass_cutoff_hz_arg xs)
        ∙ cutoff_added highpass a.highpass_cutoff_hz_arg (xs ++ low) in
      let add_stop = add_range floats stopband a.stopband_str_arg in
      let ranges = joined (of_range passband a.pass_range_str_arg) (joined stop rest) in
      bind_assoc _ add_stop (filter_chain floats args)
      ∙ ap
          (λ cs.
            Option.bind (add_range floats passband a.pass_range_str_arg cs)
              (λ r. Option.bind (add_stop r) (filter_chain floats args)))
          cutoffs
      ∙ ap (λ o. Option.bind o (λ r. Option.bind (add_stop r) (filter_chain floats args)))
          (range_added passband a.pass_range_str_arg ((xs ++ low) ++ high))
      ∙ after_part ((xs ++ low) ++ high) (of_range passband a.pass_range_str_arg) (joined stop rest)
          _
          (λ ys.
            ap (λ o. Option.bind o (filter_chain floats args))
              (range_added stopband a.stopband_str_arg ys)
            ∙ after_part ys stop rest (filter_chain floats args) (filter_chain-after args))
      ∙ regrouped xs low high ranges
    where
      regrouped :
          (xs low high : List (FilterRequest D)) (o : Option (List (FilterRequest D)))
          → after ((xs ++ low) ++ high) o ≡ after xs (joined (some low) (joined (some high) o))
      regrouped xs low high none = refl
      regrouped xs low high (some ws) =
          ap (λ t. some (first_five t))
            (append_assoc (xs ++ low) high ws ∙ append_assoc xs low (high ++ ws))

  -- The chain of filters is refused exactly if one of the ranges is malformed, and else holds the first
  -- five of all the filters that are asked for, in the order of the options: by index, and for each
  -- index the lowpass, the highpass, the pass range and the stopband.
  pub filter_chain_lem :
      (args : List (FilterArgs D))
      → filter_chain floats args []
        ≡ Option.map (λ requests. take max_filter_chain requests) (all_requests args)
  filter_chain_lem args = filter_chain-after args []
