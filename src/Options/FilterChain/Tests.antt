-- ===== src/Options/FilterChain/Tests.antt =====
-- A chain of filters, with numbers for the frequencies, read as their texts' lengths.
use mathlib.Core.Option
use iq_tool.Prelude.{ℕ, ◌+◌, ◌-◌, ◌≡◌, List, [], ◌∷◌, none, some, leb, length, take}
use iq_tool.Text.{codes}
use iq_tool.Options.FilterChain.{FilterArgs, Floats, max_filter_chain, filter_chain}
use iq_tool.Options.FilterChain.Requests.{all_requests, filter_chain_lem}

abbrev lengths : Floats ℕ
lengths = record {
  strtof = λ text. (length text, []);
  less_or_equal = leb;
  zero_hz = 0;
  bandwidth = λ a b. b - a;
  center = λ a b. a + b;
}

abbrev args : List (FilterArgs ℕ)
args =
    record {
      lowpass_cutoff_hz_arg = some 9;
      highpass_cutoff_hz_arg = none;
      pass_range_str_arg = some (codes "1:100");
      stopband_str_arg = none;
    }
    ∷ record {
      lowpass_cutoff_hz_arg = none;
      highpass_cutoff_hz_arg = some 7;
      pass_range_str_arg = none;
      stopband_str_arg = some (codes "10:1000");
    }
    ∷ []

filter_chain_lem_example :
    filter_chain lengths args []
    ≡ Option.map (λ requests. take max_filter_chain requests) (all_requests lengths args)
filter_chain_lem_example = filter_chain_lem lengths args
