-- ===== src/Lookup/Escapes.antt =====
-- The escapes that are removed from what was found (lookup.c): _cirlw_remove_escapes.
pub mod Bounds
pub mod Decode
pub mod Examples
use fritz2ci.Prelude.{
  ℕ, zero, suc, ◌+◌, Bool, true, false, Option, none, some, List, [], ◌∷◌, ltb, ◌==◌, if◌then◌else◌,
  ◌>>=◌,
}
use fritz2ci.Memory.{Bytes, load, store}

-- Whether `%20` stands at a position: a character is read only behind the ones that fit.
unfoldable pub escaped : Bytes → ℕ → Option Bool
unfolding load
escaped str p = do
  c ← load str p
  if c == b'%'
      then (do
        c₁ ← load str (p + 1)
        if c₁ == b'2' then (do c₂ ← load str (p + 2); some (c₂ == b'0')) else some false)
      else some false

-- `if (d > 0) str[i] = str[i+d];`
unfoldable pub move : ℕ → ℕ → Bytes → Option Bytes
unfolding load store
move i d str = if ltb 0 d then (do c ← load str (i + d); store str i c) else some str

-- The body of the loop, with `d` and the string behind it.
unfoldable pub remove_one : ℕ → ℕ → Bytes → Option (ℕ × Bytes)
unfolding escaped move store
remove_one i d str = do
  space ← escaped str (i + d)
  if space
      then (do str' ← store str i 32; some (d + 2, str'))
      else (do str' ← move i d str; some (d, str'))

-- The loop, for a number of rounds; `none` is a fault, or the end of the rounds.
unfoldable pub remove_loop : ℕ → ℕ → ℕ → Bytes → Option Bytes
unfolding load store remove_one
remove_loop zero i d str = none
remove_loop (suc n) i d str = do
  c ← load str (i + d)
  elim (c == 0) [
    | true ↦ store str i 0
    | false ↦ (do (d', str') ← remove_one i d str; remove_loop n (i + 1) d' str')
  ]

-- _cirlw_remove_escapes
unfoldable pub remove_escapes : ℕ → Bytes → Option Bytes
unfolding remove_loop
remove_escapes fuel str = remove_loop fuel 0 0 str
