-- ===== src/Memory.antt =====
-- Regions of memory, as the C code sees them through a pointer: the bytes from the pointer up to
-- the end of the object that it points into. An access outside of it is a fault, `none`.
pub mod Emits
use fritz2ci.Prelude.{
  ℕ, zero, suc, ◌+◌, Option, none, some, List, [], ◌∷◌, get_elem?, tabulate, ◌>>=◌,
}

abbrev pub Bytes : Type 0
Bytes = List ℕ

-- `p[i]`, of a region of bytes or an array of anything else.
unfoldable pub load {ℓ} : {A : Type ℓ} → List A → ℕ → Option A
load r i = get_elem? r i

-- `p[i] = v`
unfoldable pub store {ℓ} : {A : Type ℓ} → List A → ℕ → A → Option (List A)
store [] i v = none
store (x ∷ r) zero v = some (v ∷ r)
store (x ∷ r) (suc i) v = do r' ← store r i v; some (x ∷ r')

-- The pointer `&p[n]`, for reading; `n` may be the length of the region.
unfoldable pub advance : ℕ → Bytes → Option Bytes
advance zero r = some r
advance (suc n) [] = none
advance (suc n) (x ∷ r) = advance n r

-- A call that writes through `&p[n]`: the bytes before it stay as they are.
unfoldable pub under {ℓ} :
    {A : Type ℓ} → ℕ → (Bytes → Option (Bytes × A)) → Bytes → Option (Bytes × A)
under zero f r = f r
under (suc n) f [] = none
under (suc n) f (x ∷ r) = do (r', a) ← under n f r; some (x ∷ r', a)

-- `for (k = 0; k < n; k++) dst[di + k] = src[si + k]`, and `memcpy`.
unfoldable pub copy : ℕ → Bytes → ℕ → Bytes → ℕ → Option Bytes
unfolding load store
copy zero dst di src si = some dst
copy (suc n) dst di src si = do
  v ← load src si
  dst' ← store dst di v
  copy n dst' (di + 1) src (si + 1)

-- `memset(p, 0, n)`
unfoldable pub clear : ℕ → Bytes → Option Bytes
clear zero r = some r
clear (suc n) [] = none
clear (suc n) (x ∷ r) = do r' ← clear n r; some (0 ∷ r')

-- `malloc(n)`: a new object with whatever bytes the heap holds there.
unfoldable pub malloc : (ℕ → ℕ) → ℕ → Bytes
malloc junk n = tabulate n junk
