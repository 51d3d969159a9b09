-- ===== src/SpyServer/AnyOrder/Fronts.antt =====
-- Fronts of lists.
use iq_tool.Prelude.{
  ℕ, ◌≡◌, refl, ap, sym, ◌∙◌, List, [], ◌++◌, take, drop, take-append-drop, append_assoc,
}

-- The first list is a front of the second.
pub record IsFront (xs ys : List ℕ) : Type 0 where
  pub others : List ℕ
  pub whole : xs ++ others ≡ ys

pub nothing-IsFront : (ys : List ℕ) → IsFront [] ys
nothing-IsFront ys = record { others = ys; whole = refl }

pub append-IsFront : (ws : List ℕ) {xs ys : List ℕ} → IsFront xs ys → IsFront (ws ++ xs) (ws ++ ys)
append-IsFront ws {xs} f = record {
  others = f.others;
  whole = append_assoc ws xs f.others ∙ ap (λ t. ws ++ t) f.whole;
}

pub take-IsFront : (k : ℕ) (ws ys : List ℕ) → IsFront (take k ws ++ []) (ws ++ ys)
take-IsFront k ws ys = record {
  others = drop k ws ++ ys;
  whole =
      append_assoc (take k ws) [] (drop k ws ++ ys)
      ∙ sym (append_assoc (take k ws) (drop k ws) ys)
      ∙ ap (λ t. t ++ ys) (take-append-drop k ws);
}
