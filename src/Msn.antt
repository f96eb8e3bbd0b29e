-- ===== src/Msn.antt =====
-- The aliases of the local numbers (msn_lookup.c). An entry, MSN_Lookup, is one object of 288 bytes:
-- the number in the first 32, the alias behind.
pub mod Lines
pub mod Lookup
pub mod Examples
use fritz2ci.Prelude.{
  ℕ, zero, suc, ◌+◌, Bool, true, false, ◌||◌, Option, none, some, List, [], ◌∷◌, replicate, ltb,
  ◌==◌, if◌then◌else◌, ◌>>=◌,
}
use fritz2ci.Memory.{Bytes, store, advance}

abbrev pub msn_size : ℕ
msn_size = 32

abbrev pub alias_size : ℕ
alias_size = 256

-- A blank or a tab; what ends a line; what ends a number.
abbrev pub blank : ℕ → Bool
blank c = (c == 32) || (c == 9)

abbrev pub ends_line : ℕ → Bool
ends_line c = (c == 0) || (c == 10)

abbrev pub ends_word : ℕ → Bool
ends_word c = blank c || ends_line c

-- `while (buffer[i] == ' ' || buffer[i] == '\t') i++;`, with the buffer from `i` on.
unfoldable pub skip_blanks : Bytes → Option Bytes
skip_blanks [] = none
skip_blanks (c ∷ rest) = let next = skip_blanks rest in if blank c then next else some (c ∷ rest)

-- The loop that copies to a field, with the buffer from `i` on and the entry.
unfoldable pub copy_field : (ℕ → Bool) → ℕ → ℕ → Bytes → Bytes → ℕ → Option (Bytes × Bytes × ℕ)
unfolding store
copy_field ends base size [] entry j = none
copy_field ends base size (c ∷ rest) entry j =
    let next : Option (Bytes × Bytes × ℕ) = do
      entry' ← store entry (base + j) c
      copy_field ends base size rest entry' (suc j)
    in if ends c
      then some (c ∷ rest, entry, j)
      else if ltb j size
      then next
      else some (c ∷ rest, entry, j)

-- _read_line behind its first two assignments, and the whole of it, where no pointer is NULL.
unfoldable pub read_fields : Bytes → Bytes → Option Bytes
unfolding skip_blanks copy_field store
read_fields buffer entry = do
  r₁ ← skip_blanks buffer
  (r₂, e₁, j) ← copy_field ends_word 0 msn_size r₁ entry 0
  e₂ ← store e₁ j 0
  r₃ ← skip_blanks r₂
  (_, e₃, k) ← copy_field ends_line msn_size alias_size r₃ e₂ 0
  store e₃ (msn_size + k) 0

unfoldable pub read_line : Bytes → Bytes → Option Bytes
unfolding read_fields store
read_line buffer entry = do e₁ ← store entry 0 0; e₂ ← store e₁ msn_size 0; read_fields buffer e₂

-- The loop of msnl_read_file over the lines that `fgets` gives, each in an entry of its own, which
-- is prepended; the list is reversed at the end.
unfoldable pub read_lines : List Bytes → List Bytes → Option (List Bytes)
unfolding read_line
read_lines [] entries = some entries
read_lines (buffer ∷ buffers) entries = do
  entry ← read_line buffer (replicate 288 0)
  read_lines buffers (entry ∷ entries)

-- `g_slist_reverse`
abbrev pub reversed : List Bytes → List Bytes → List Bytes
reversed [] acc = acc
reversed (x ∷ xs) acc = reversed xs (x ∷ acc)

unfoldable pub read_file : List Bytes → Option (List Bytes)
unfolding read_lines
read_file buffers = do entries ← read_lines buffers []; some (reversed entries [])

-- `strcmp(a, b) == 0`; it faults if it reads behind an object.
unfoldable pub same_string : Bytes → Bytes → Option Bool
same_string [] b = none
same_string (x ∷ a) [] = none
same_string (x ∷ a) (y ∷ b) =
    let rest = same_string a b in
    if x == y then (if x == 0 then some true else rest) else some false

-- The string that `strcpy` copies, without its NUL.
unfoldable pub string_of : Bytes → Option Bytes
string_of [] = none
string_of (c ∷ s) =
    let rest = string_of s in if c == 0 then some [] else (do t ← rest; some (c ∷ t))

-- msnl_lookup where neither pointer is NULL: what is copied to `alias`, and the result.
unfoldable pub lookup : List Bytes → Bytes → Option (Option Bytes × ℕ)
unfolding same_string string_of advance
lookup [] msn = some (none, 1)
lookup (entry ∷ entries) msn =
    let rest = lookup entries msn in
    (do
      same ← same_string entry msn
      if same
          then (do field ← advance msn_size entry; alias ← string_of field; some (some alias, 0))
          else rest)
