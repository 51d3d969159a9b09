-- ===== src/PresetsLoader/Reading.antt =====
-- How the loop of src/presets_loader.c takes the file apart: `fgets` with its buffer.
use iq_tool.Prelude.{
  ℕ, zero, suc, ◌+◌, ◌-◌, ◌<◌, ◌≤◌, ◌≡◌, refl, ap, ◌∙◌, List, [], ◌∷◌, ◌++◌, Bool, true, false,
  ◌&&◌, not, Option, arith, ◌==◌, if◌then◌else◌, length, length-append, append_assoc,
}
use iq_tool.PresetsLoader.{Library, Loader, load}

-- `MAX_LINE_LENGTH`
abbrev pub max_line_length : ℕ
max_line_length = 1024

-- `fgets` with room for so many bytes and the NUL: the bytes through the next newline, as long as
-- there is room, and what is left.
unfoldable pub fgets : ℕ → List ℕ → List ℕ × List ℕ
fgets zero input = ([], input)
fgets (suc n) [] = ([], [])
fgets (suc n) (c ∷ input) =
    let (line, rest) = fgets n input in if c == 10 then (c ∷ [], input) else (c ∷ line, rest)

-- A string ends at its first NUL.
unfoldable pub c_string : List ℕ → List ℕ
c_string [] = []
c_string (c ∷ cs) = let rest = c_string cs in if c == 0 then [] else c ∷ rest

-- The lines that the loop sees. A round takes at least one byte, so that as many rounds as bytes are
-- enough.
unfoldable pub read_lines : ℕ → List ℕ → List (List ℕ)
read_lines zero input = []
read_lines (suc fuel) [] = []
read_lines (suc fuel) (c ∷ input) =
    let (line, rest) = fgets (max_line_length - 1) (c ∷ input) in
    c_string line ∷ read_lines fuel rest

-- `load` on an open file that holds these bytes.
unfoldable pub load_file : {N : Type 0} → Library N → List ℕ → Option (Loader N)
load_file lib bytes = load lib (read_lines (length bytes) bytes)

-- A text without newlines and NULs.
unfoldable pub on_one_line : List ℕ → Bool
on_one_line [] = true
on_one_line (c ∷ cs) = (not (c == 10) && not (c == 0)) && on_one_line cs

unfoldable pub joined : List (List ℕ) → List ℕ
joined [] = []
joined (line ∷ lines) = line ++ joined lines

pub on_one_line-append :
    (xs ys : List ℕ) → on_one_line (xs ++ ys) ≡ (on_one_line xs && on_one_line ys)
unfolding on_one_line
on_one_line-append [] ys = refl
on_one_line-append (x ∷ xs) ys = ground (arith, on_one_line-append xs ys)

fgets-line :
    (n : ℕ) (xs rest : List ℕ)
    → on_one_line xs ≡ true
    → length xs < n
    → fgets n (xs ++ (10 ∷ rest)) ≡ (xs ++ (10 ∷ []), rest)
unfolding fgets on_one_line
fgets-line zero xs rest h k = absurd (omega arith)
fgets-line (suc n) [] rest h k = refl
fgets-line (suc n) (x ∷ xs) rest h k =
    let other : (x == 10) ≡ false = ground arith in
    let same : on_one_line xs ≡ true = ground arith in
    rw other (rw (fgets-line n xs rest same (omega arith)) refl)

c_string-line : (xs : List ℕ) → on_one_line xs ≡ true → c_string (xs ++ (10 ∷ [])) ≡ xs ++ (10 ∷ [])
unfolding c_string on_one_line
c_string-line [] h = refl
c_string-line (x ∷ xs) h =
    let other : (x == 0) ≡ false = ground arith in
    let same : on_one_line xs ≡ true = ground arith in
    rw other (ap (λ t. x ∷ t) (c_string-line xs same))

first_line :
    (fuel : ℕ) (xs rest : List ℕ)
    → on_one_line xs ≡ true
    → length xs < max_line_length - 1
    → read_lines (suc fuel) (xs ++ (10 ∷ rest)) ≡ (xs ++ (10 ∷ [])) ∷ read_lines fuel rest
unfolding read_lines
first_line fuel [] rest h k =
    rw (fgets-line (max_line_length - 1) [] rest h k) (rw (c_string-line [] h) refl)
first_line fuel (x ∷ xs) rest h k =
    rw (fgets-line (max_line_length - 1) (x ∷ xs) rest h k) (rw (c_string-line (x ∷ xs) h) refl)

-- These lines are read back from one text.
abbrev pub Readable : List (List ℕ) → Type 0
Readable lines = (fuel : ℕ) → length (joined lines) ≤ fuel → read_lines fuel (joined lines) ≡ lines

pub nothing-Readable : Readable []
unfolding read_lines joined
nothing-Readable zero h = refl
nothing-Readable (suc fuel) h = refl

pub line-Readable :
    (xs : List ℕ) (lines : List (List ℕ))
    → on_one_line xs ≡ true
    → length xs < max_line_length - 1
    → Readable lines
    → Readable ((xs ++ (10 ∷ [])) ∷ lines)
unfolding joined
line-Readable xs lines h k r fuel enough = rw (append_assoc xs (10 ∷ []) (joined lines)) (
    with_fuel fuel (
      omega (
        arith,
        enough,
        length-append (xs ++ (10 ∷ [])) (joined lines),
        length-append xs (10 ∷ []),
      )))
  where
    with_fuel :
        (fuel : ℕ)
        → length xs + 1 + length (joined lines) ≤ fuel
        → read_lines fuel (xs ++ (10 ∷ joined lines)) ≡ (xs ++ (10 ∷ [])) ∷ lines
    with_fuel zero enough = absurd (omega arith)
    with_fuel (suc fuel) enough =
        first_line fuel xs (joined lines) h k
        ∙ ap (λ t. (xs ++ (10 ∷ [])) ∷ t) (r fuel (omega arith))
