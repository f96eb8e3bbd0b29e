-- ===== src/Areacodes.antt =====
-- The area codes (ci_areacodes.c). The file is the list of the lines that fgets gives from its start,
-- and a position in it is the number of characters before. What follows the end of a text is its NUL,
-- and `behind` is the byte behind that of the number.
pub mod Search
pub mod Bounds
pub mod Lines
pub mod Examples
use fritz2ci.Prelude.{
  ℕ, zero, suc, ◌+◌, ◌-◌, ◌*◌, Bool, true, false, not, ◌&&◌, ◌||◌, Option, none, some, List, [],
  ◌∷◌, ◌++◌, length, take, drop, get_or, ltb, leb, ◌==◌, if◌then◌else◌, ◌>>=◌,
}
use fritz2ci.Text.{Text, strcpy}
use fritz2ci.Numbers.{is_digit}

-- _ciac_indizes
abbrev pub Index : Type 0
Index = ℕ → ℕ

-- ci_init_area_codes
abbrev pub no_index : Index
no_index i = 0

-- g_ascii_digit_value and one, which is -1 and one for what is no digit.
abbrev pub digit_rank : ℕ → ℕ
digit_rank c = if is_digit c then c - 47 else 0

abbrev pub char_at : Text → ℕ → ℕ
char_at t i = get_or t i 0

-- Three characters at least, and digits.
abbrev pub has_code : Text → Bool
has_code l =
    leb 3 (length l)
    && (is_digit (char_at l 0) && (is_digit (char_at l 1) && is_digit (char_at l 2)))

-- The second and the third digit as a number.
abbrev pub line_index : Text → ℕ
line_index l = 10 * (char_at l 1 - 48) + (char_at l 2 - 48)

-- A line at a position, in the index.
unfoldable pub enter_line : ℕ → Text → Index → Index
enter_line pos l ix =
    if has_code l && (ix (line_index l) == 0)
    then (λ i. if i == line_index l then pos else ix i)
    else ix

-- ci_read_area_codes_from_file on an open file, from a position on.
unfoldable pub read_codes : ℕ → List Text → Index → Index
unfolding enter_line
read_codes pos [] ix = ix
read_codes pos (l ∷ ls) ix = read_codes (pos + length l) ls (enter_line pos l ix)

-- The lines behind `fseek`: the first is what is left of the line that the position stands in. A line of
-- more than 255 characters, which fgets gives in pieces, is cut anew only behind its last piece.
unfoldable pub lines_at : ℕ → List Text → List Text
lines_at pos [] = []
lines_at pos (l ∷ ls) =
    let rest = lines_at (pos - length l) ls in
    if pos == 0 then l ∷ ls else if ltb pos (length l) then drop pos l ∷ ls else rest

-- How many digits of a line the number has.
unfoldable pub digits_matched : Text → Text → ℕ
digits_matched [] n = 0
digits_matched (c ∷ l) [] = 0
digits_matched (c ∷ l) (d ∷ n) =
    let rest = digits_matched l n in
    if is_digit c && (digit_rank c == digit_rank d) then suc rest else 0

-- `g_ascii_isspace`
abbrev pub is_space : ℕ → Bool
is_space c = (c == 32) || (leb 9 c && leb c 13 && not (c == 11))

unfoldable pub skip_spaces : Text → Text
skip_spaces [] = []
skip_spaces (c ∷ l) = let rest = skip_spaces l in if is_space c then rest else c ∷ l

-- Up to the end of the line.
unfoldable pub to_line_end : Text → Text
to_line_end [] = []
to_line_end (c ∷ l) = let rest = to_line_end l in if (c == 10) || (c == 0) then [] else c ∷ rest

-- What ci_get_area_code writes to.
pub record Area : Type 0 where
  pub code : Text
  pub number : Text
  pub area : Text

abbrev pub unknown : Text
unknown = b'<' ∷ b'u' ∷ b'n' ∷ b'k' ∷ b'n' ∷ b'o' ∷ b'w' ∷ b'n' ∷ b'>' ∷ []

-- A line whose code the number begins with, with the length of the code.
unfoldable pub write_match : ℕ → Text → Text → Area → Option (Area × ℕ)
unfolding skip_spaces to_line_end
write_match i l n a = do
  code ← strcpy 16 (take i n)
  number ← strcpy 32 (drop i n)
  area ← strcpy 256 (to_line_end (skip_spaces (drop i l)))
  some (record { code = code; number = number; area = area }, 0)

-- The loop over the lines. At the end of the file the code stays as it is.
unfoldable pub search : List Text → Text → Area → Option (Area × ℕ)
unfolding digits_matched write_match
search [] n a = some (a, 1)
search (l ∷ ls) n a =
    let rest = search ls n a in
    let i = digits_matched l n in
    if ltb 2 i && not (is_digit (char_at l i))
    then write_match i l n a
    else if ltb (digit_rank (char_at n i)) (digit_rank (char_at l i))
    then some (record a { code = unknown }, 1)
    else rest

-- The index of a number, whose third character is behind its NUL if it has one.
unfoldable pub number_index : ℕ → Text → ℕ
number_index behind n =
    let third = get_or (n ++ (0 ∷ behind ∷ [])) 2 0 in
    let i = if is_digit (char_at n 1) then char_at n 1 - 48 else 0 in
    if is_digit third then 10 * i + (third - 48) else i

-- From the first digit on, which has replaced the first character of the code; `opened` is whether
-- the file can be opened.
unfoldable pub search_from : ℕ → Bool → Index → List Text → Text → Area → Option (Area × ℕ)
unfolding lines_at search number_index
search_from behind opened ix ls n a =
    if ltb 0 (number_index behind n) && (ix (number_index behind n) == 0)
    then some (record a { code = unknown }, 1)
    else if opened
    then search (lines_at (ix (number_index behind n)) ls) n a
    else some (a, 1)

-- Where no pointer is NULL and the number is not the array for its rest.
unfoldable pub look_up : ℕ → Bool → Index → List Text → Text → Option (Area × ℕ)
unfolding search_from
look_up behind opened ix ls n = do
  number ← strcpy 32 n
  if is_digit (char_at n 0)
      then search_from behind opened ix ls n
          (record { code = char_at n 0 ∷ drop 1 unknown; number = number; area = unknown })
      else some (record { code = unknown; number = number; area = unknown }, 1)

-- ci_get_area_code, where `named` is whether a file was read.
unfoldable pub get_area_code : ℕ → Bool → Bool → Index → List Text → Text → Area → Option (Area × ℕ)
unfolding look_up
get_area_code behind false opened ix ls n old = some (old, 1)
get_area_code behind true opened ix ls n old = look_up behind opened ix ls n
