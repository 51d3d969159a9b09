-- ===== src/Formats/Names.antt =====
-- Looking a format up by its name (src/utils.c).
use Prim.Native.Char.{code}
use Prim.Native.String.{String}
use iq_tool.Prelude.{
  ℕ, ◌+◌, ◌≡◌, ◌≢◌, ◌↔◌, inl, inr, Bool-cases, refl, sym, ap, ◌∙◌, fun_ext, List, [], ◌∷◌, Bool,
  true, false, ◌&&◌, none, some, arith, leb, ◌==◌, if◌then◌else◌,
}
use iq_tool.Formats.{
  Format, format_unknown, u8, s8, u16, s16, u32, s32, f32, cu8, cs8, cu16, cs16, cs24, cu32, cs32,
  cf32, sc16q11, SampleFormatInfo, format_table, find_name, get_format_from_string, id, of_id,
}

-- An ASCII letter in lower case.
abbrev pub to_lower : ℕ → ℕ
to_lower c = if leb b'A' c && leb c b'Z' then c + 32 else c

abbrev pub folded : String → List ℕ
folded String.[] = []
folded (String.◌∷◌ c s) = to_lower (code c) ∷ folded s

abbrev list_eq : List ℕ → List ℕ → Bool
list_eq [] [] = true
list_eq [] (y ∷ ys) = false
list_eq (x ∷ xs) [] = false
list_eq (x ∷ xs) (y ∷ ys) = x == y && list_eq xs ys

list_eq_refl : (xs : List ℕ) → list_eq xs xs ≡ true
list_eq_refl [] = refl
list_eq_refl (x ∷ xs) = ground (arith, list_eq_refl xs)

eq_of_list_eq : (xs ys : List ℕ) → list_eq xs ys ≡ true → xs ≡ ys
eq_of_list_eq [] [] h = refl
eq_of_list_eq [] (y ∷ ys) h = cc
eq_of_list_eq (x ∷ xs) [] h = cc
eq_of_list_eq (x ∷ xs) (y ∷ ys) h = ground (arith, eq_of_list_eq xs ys)

-- What POSIX says of `strcasecmp(a, b) == 0` in the C locale.
abbrev pub equal_folded : String → String → Bool
equal_folded a b = list_eq (folded a) (folded b)

-- The name that the program documents for each format.
abbrev pub name_of : Format → String
name_of format_unknown = ""
name_of u8 = "u8"
name_of s8 = "s8"
name_of u16 = "u16"
name_of s16 = "s16"
name_of u32 = "u32"
name_of s32 = "s32"
name_of f32 = "f32"
name_of cu8 = "cu8"
name_of cs8 = "cs8"
name_of cu16 = "cu16"
name_of cs16 = "cs16"
name_of cs24 = "cs24"
name_of cu32 = "cu32"
name_of cs32 = "cs32"
name_of cf32 = "cf32"
name_of sc16q11 = "sc16q11"

-- The search, by the folded name.
abbrev find_folded : List ℕ → List SampleFormatInfo → Format
find_folded name [] = format_unknown
find_folded name (entry ∷ table) =
    if list_eq name (folded entry.name_str) then entry.format_enum else find_folded name table

find_name-folded :
    (name : String) (table : List SampleFormatInfo)
    → find_name equal_folded name table ≡ find_folded (folded name) table
unfolding find_name
find_name-folded name [] = refl
find_name-folded name (entry ∷ table) =
    ap (λ rest. if list_eq (folded name) (folded entry.name_str) then entry.format_enum else rest)
      (find_name-folded name table)

find_own_name :
    (format : Format)
    → format ≢ format_unknown
    → find_folded (folded (name_of format)) format_table ≡ format
unfolding format_table
find_own_name format_unknown h = absurd (h refl)
find_own_name u8 h = refl
find_own_name _ h = refl

abbrev Named : List SampleFormatInfo → Type 0
Named [] = Unit
Named (entry ∷ table) = (folded entry.name_str ≡ folded (name_of entry.format_enum)) × Named table

table-Named : Named format_table
unfolding format_table
table-Named = (
  refl,
  (
    refl,
    (
      refl,
      (
        refl,
        (
          refl,
          (
            refl,
            (refl, (refl, (refl, (refl, (refl, (refl, (refl, (refl, (refl, (refl, tt)))))))))),
          ),
        ),
      ),
    ),
  ),
)

found_is_Named :
    (name : List ℕ) (table : List SampleFormatInfo) (format : Format)
    → Named table
    → format ≢ format_unknown
    → find_folded name table ≡ format
    → name ≡ folded (name_of format)
found_is_Named name [] format h k e = absurd (k (sym e))
found_is_Named name (entry ∷ table) format h k e =
    elim (Bool-cases (list_eq name (folded entry.name_str))) [
      | inl t ↦
          let found : entry.format_enum ≡ format = rw t at e in
          eq_of_list_eq name (folded entry.name_str) t ∙ h.0 ∙ ap (λ f. folded (name_of f)) found
      | inr t ↦ found_is_Named name table format h.1 k (rw t at e)
    ]

-- If `strcasecmp` compares without regard to case, a text is read as a format exactly when it spells
-- that format's own name, in any mixture of cases; no text at all is read as no format.
pub get_format_from_string_iff :
    (same : String → String → Bool)
    → ((a b : String) → same a b ≡ equal_folded a b)
    → (format : Format) → format ≢ format_unknown
    → (name : String)
    → ((get_format_from_string same (some name) ≡ format) ↔ (folded name ≡ folded (name_of format)))
      × (get_format_from_string same none ≡ format_unknown)
unfolding get_format_from_string
get_format_from_string_iff same posix format known name = (
  (
    λ e. found_is_Named (folded name) format_table format table-Named known (sym search_lem ∙ e),
    λ e. search_lem ∙ ap (λ n. find_folded n format_table) e ∙ find_own_name format known,
  ),
  refl,
)
  where
    search_lem : find_name same name format_table ≡ find_folded (folded name) format_table
    search_lem =
        ap (λ s. find_name s name format_table) (fun_ext (λ a. fun_ext (posix a)))
        ∙ find_name-folded name format_table

-- Every constant is the constant of its value, and no other value has one.
pub of_id_iff : (n : ℕ) (format : Format) → (of_id n ≡ some format) ↔ (n ≡ id format)
unfolding of_id id
of_id_iff n format = ((λ e. ground arith), λ e. go format e)
  where
    go : (format : Format) → n ≡ id format → of_id n ≡ some format
    go format_unknown e = rw e
    go _ e = rw e
