-- ===== src/Text.antt =====
-- Texts as lists of bytes: trim_whitespace of src/utils.c, and what the program uses of <string.h>.
pub mod Trimming
use Prim.Native.Char.{code}
use Prim.Native.String.{String}
use mathlib.Core.Option
use iq_tool.Prelude.{
  ℕ, ◌+◌, List, [], ◌∷◌, Bool, true, false, ◌&&◌, ◌||◌, Option, none, some, leb, ◌==◌,
  if◌then◌else◌,
}

abbrev pub codes : String → List ℕ
codes String.[] = []
codes (String.◌∷◌ c s) = code c ∷ codes s

-- `isspace` in the C locale
abbrev pub isspace : ℕ → Bool
isspace c = (leb 9 c && leb c 13) || c == 32

abbrev pub is_empty : List ℕ → Bool
is_empty [] = true
is_empty (c ∷ cs) = false

-- The first loop of `trim_whitespace`.
unfoldable pub skip_spaces : List ℕ → List ℕ
skip_spaces [] = []
skip_spaces (c ∷ cs) = let rest = skip_spaces cs in if isspace c then rest else c ∷ cs

-- The second loop, from the end. The first byte is not a space, so that the loop stops there.
unfoldable pub cut_spaces : List ℕ → List ℕ
cut_spaces [] = []
cut_spaces (c ∷ cs) =
    let rest = cut_spaces cs in if isspace c && is_empty rest then [] else c ∷ rest

unfoldable pub trim_whitespace : List ℕ → List ℕ
trim_whitespace text = cut_spaces (skip_spaces text)

-- `strcasecmp(a, b) == 0` in the C locale, as POSIX has it
abbrev pub to_lower : ℕ → ℕ
to_lower c = if leb b'A' c && leb c b'Z' then c + 32 else c

unfoldable pub equal_folded : List ℕ → List ℕ → Bool
equal_folded [] [] = true
equal_folded [] (y ∷ ys) = false
equal_folded (x ∷ xs) [] = false
equal_folded (x ∷ xs) (y ∷ ys) = to_lower x == to_lower y && equal_folded xs ys

-- `strstr` finds the needle.
unfoldable pub starts_with : List ℕ → List ℕ → Bool
starts_with [] text = true
starts_with (x ∷ needle) [] = false
starts_with (x ∷ needle) (c ∷ text) = x == c && starts_with needle text

unfoldable pub strstr : List ℕ → List ℕ → Bool
strstr [] needle = starts_with needle []
strstr (c ∷ text) needle = starts_with needle (c ∷ text) || strstr text needle

-- The text before the byte that `strchr` finds, if it finds one.
unfoldable pub before : ℕ → List ℕ → Option (List ℕ)
before x [] = none
before x (c ∷ text) =
    let rest = before x text in if c == x then some [] else Option.map (λ t. c ∷ t) rest

-- `strtok` with one delimiter: the delimiters in front are skipped; the token, and what comes behind
-- the delimiter that ends it.
unfoldable pub skip_byte : ℕ → List ℕ → List ℕ
skip_byte x [] = []
skip_byte x (c ∷ text) = let rest = skip_byte x text in if c == x then rest else c ∷ text

unfoldable pub split_at : ℕ → List ℕ → List ℕ × List ℕ
split_at x [] = ([], [])
split_at x (c ∷ text) =
    let (token, rest) = split_at x text in if c == x then ([], text) else (c ∷ token, rest)
