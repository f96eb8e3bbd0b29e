-- ===== src/Numbers.antt =====
-- The numbers that the database takes (dbhandler.c).
pub mod Valid
pub mod Examples
use fritz2ci.Prelude.{
  ℕ, Bool, true, false, not, ◌&&◌, Option, none, some, List, [], ◌∷◌, leb, ◌==◌, if◌then◌else◌,
}
use fritz2ci.Memory.{Bytes}

-- `g_ascii_isdigit`
abbrev pub is_digit : ℕ → Bool
is_digit c = leb 48 c && leb c 57

-- The loop of is_valid_number, with the string from `j` on.
unfoldable pub digits_only : Bytes → Option Bool
digits_only [] = none
digits_only (c ∷ s) =
    let rest = digits_only s in
    if c == 0 then some true else if not (is_digit c) then some false else rest

-- is_valid_number; a NULL pointer is `none`.
unfoldable pub is_valid_number : Option Bytes → Option Bool
unfolding digits_only
is_valid_number none = some false
is_valid_number (some []) = none
is_valid_number (some (c ∷ s)) = if c == 0 then some false else digits_only (c ∷ s)
