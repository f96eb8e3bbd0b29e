-- ===== src/Lookup/Url.antt =====
-- The address that is asked for a number (lookup.c): _cirlw_prepare_url and _getsubstitutediff. The
-- position in the raw address is what is left of it, with its NUL and what stands behind.
pub mod Expand
pub mod Fill
pub mod Examples
use fritz2ci.Prelude.{
  ℕ, zero, suc, ◌+◌, ◌-◌, Bool, true, false, not, Option, none, some, List, [], ◌∷◌, length, ltb,
  ◌==◌, if◌then◌else◌, ◌>>=◌,
}
use fritz2ci.Memory.{Bytes, store, malloc}
use fritz2ci.Text.{Text, same, text_of}
use fritz2ci.Numbers.{is_digit}

abbrev pub number_word : Text
number_word = b'N' ∷ b'U' ∷ b'M' ∷ b'B' ∷ b'E' ∷ b'R' ∷ []

-- `url[i] == '%' && !g_ascii_isdigit(url[i+1])`, with the character and what follows it.
unfoldable pub opens_pattern : ℕ → Bytes → Option Bool
opens_pattern c [] = if c == b'%' then none else some false
opens_pattern c (d ∷ s) = some (if c == b'%' then not (is_digit d) else false)

-- The loops that copy to `pattern`, an array of 32, up to the next percent sign: the pattern, and what
-- follows the sign.
unfoldable pub read_pattern : ℕ → Bytes → Option (Bytes × Bytes)
read_pattern k [] = none
read_pattern k (c ∷ s) =
    let rest = read_pattern (suc k) s in
    if ltb k 32
    then (if c == b'%' then some ([], s) else (do (p, s') ← rest; some (c ∷ p, s')))
    else none

-- `do i++; while (url[i] != '%');` and the `i++` behind it.
unfoldable pub skip_pattern : Bytes → Option Bytes
skip_pattern [] = none
skip_pattern (c ∷ s) = let rest = skip_pattern s in if c == b'%' then some s else rest

-- _getsubstitutediff, as what is added and what is taken away; the string begins with a percent sign.
unfoldable pub substitute_diff : Text → Bytes → Option (ℕ × ℕ)
unfolding read_pattern
substitute_diff number s = do
  (p, s') ← read_pattern 0 s
  some (if same (text_of p) number_word then (length number, length (text_of p) + 2) else (0, 0))

-- A round of the first loop, on a character and what follows it, with what was added and taken away.
unfoldable pub measure_round : Text → ℕ → Bytes → ℕ → ℕ → Option (Bytes × ℕ × ℕ)
unfolding opens_pattern substitute_diff skip_pattern
measure_round number c s plus minus = do
  opens ← opens_pattern c s
  if opens
      then (do
        (p, m) ← substitute_diff number s
        s' ← skip_pattern s
        some (s', plus + p, minus + m))
      else some (s, plus, minus)

-- The first loop, for a number of rounds; `none` is a fault, or the end of the rounds.
unfoldable pub measure : ℕ → Text → Bytes → ℕ → ℕ → Option (ℕ × ℕ)
unfolding measure_round
measure zero number s plus minus = none
measure (suc n) number [] plus minus = none
measure (suc n) number (c ∷ s) plus minus = elim (c == 0) [
  | true ↦ some (plus, minus)
  | false ↦ (do (s', p, m) ← measure_round number c s plus minus; measure n number s' p m)
]

-- `strcpy(&out[j], t)`
unfoldable pub put_text : Text → ℕ → Bytes → Option Bytes
unfolding store
put_text [] j out = store out j 0
put_text (c ∷ t) j out = do out' ← store out j c; put_text t (j + 1) out'

-- A round of the second loop: what is left, `j` and the new address.
unfoldable pub fill_round : Text → ℕ → Bytes → ℕ → Bytes → Option (Bytes × ℕ × Bytes)
unfolding opens_pattern read_pattern put_text store
fill_round number c s j out = do
  opens ← opens_pattern c s
  if opens
      then (do
        (p, s') ← read_pattern 0 s
        if same (text_of p) number_word
            then (do out' ← put_text number j out; some (s', j + length number, out'))
            else some (c ∷ s, j, out))
      else (do out' ← store out j c; some (s, j + 1, out'))

-- The second loop and the NUL behind it.
unfoldable pub fill : ℕ → Text → Bytes → ℕ → Bytes → Option Bytes
unfolding fill_round store
fill zero number s j out = none
fill (suc n) number [] j out = none
fill (suc n) number (c ∷ s) j out = elim (c == 0) [
  | true ↦ store out j 0
  | false ↦ (do (s', j', out') ← fill_round number c s j out; fill n number s' j' out')
]

-- _cirlw_prepare_url, where the memory is given.
unfoldable pub prepare_url : (ℕ → ℕ) → ℕ → Bytes → Text → Option Bytes
unfolding measure fill malloc
prepare_url junk fuel url number = do
  (plus, minus) ← measure fuel number url 0 0
  fill fuel number url 0 (malloc junk (length (text_of url) + 1 + plus - minus))
