-- ===== src/Text.antt =====
-- Texts: what the C strings of the program hold, without their NUL. A field of a structure that is a
-- `char` array is the text in it; a write that does not fit the array is a fault, `none`.
pub mod Facts
use fritz2ci.Prelude.{
  ℕ, ◌-◌, Bool, true, false, ◌&&◌, Option, none, some, List, [], ◌∷◌, length, take, ltb, ◌==◌,
  if◌then◌else◌,
}
use fritz2ci.Memory.{Bytes}

abbrev pub Text : Type 0
Text = Bytes

-- `strcmp(a, b) == 0`
abbrev pub same : Text → Text → Bool
same [] [] = true
same [] (y ∷ b) = false
same (x ∷ a) [] = false
same (x ∷ a) (y ∷ b) = (x == y) && same a b

-- `strcpy` to an array of this size.
unfoldable pub strcpy : ℕ → Text → Option Text
strcpy size t = if ltb (length t) size then some t else none

-- `g_strlcpy` to an array of this size, which is not 0.
unfoldable pub strlcpy : ℕ → Text → Text
strlcpy size t = take (size - 1) t

-- The text in an array, up to a NUL among the bytes or to their end.
abbrev pub text_of : Bytes → Text
text_of [] = []
text_of (c ∷ s) = let rest = text_of s in if c == 0 then [] else c ∷ rest
