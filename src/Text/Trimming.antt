-- ===== src/Text/Trimming.antt =====
-- What trim_whitespace leaves alone.
use iq_tool.Prelude.{
  ℕ, ◌≡◌, refl, ap, ◌∙◌, List, [], ◌∷◌, ◌++◌, Bool, true, false, ◌&&◌, if◌then◌else◌,
}
use iq_tool.Text.{isspace, is_empty, skip_spaces, cut_spaces, trim_whitespace}

-- A text without spaces at the ends.
pub record Tidy (text : List ℕ) : Type 0 where
  pub front : skip_spaces text ≡ text
  pub back : cut_spaces text ≡ text

not_empty : (xs ys : List ℕ) → is_empty ys ≡ false → is_empty (xs ++ ys) ≡ false
not_empty [] ys h = h
not_empty (x ∷ xs) ys h = refl

pub cut_spaces-append :
    (xs ys : List ℕ) → cut_spaces ys ≡ ys → is_empty ys ≡ false → cut_spaces (xs ++ ys) ≡ xs ++ ys
unfolding cut_spaces
cut_spaces-append [] ys e h = e
cut_spaces-append (x ∷ xs) ys e h =
    rw (cut_spaces-append xs ys e h) (rw (not_empty xs ys h) (last (isspace x)))
  where
    last : (b : Bool) → (if b && false then [] else x ∷ xs ++ ys) ≡ x ∷ xs ++ ys
    last true = refl
    last false = refl

-- The newline at the end of a line goes.
pub cut_spaces-newline : (xs : List ℕ) → cut_spaces (xs ++ (10 ∷ [])) ≡ cut_spaces xs
unfolding cut_spaces
cut_spaces-newline [] = refl
cut_spaces-newline (x ∷ xs) =
    ap (λ rest. if isspace x && is_empty rest then [] else x ∷ rest) (cut_spaces-newline xs)

pub trim_whitespace-Tidy : (text : List ℕ) → Tidy text → trim_whitespace text ≡ text
unfolding trim_whitespace
trim_whitespace-Tidy text t = ap cut_spaces t.front ∙ t.back
