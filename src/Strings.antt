-- ===== src/Strings.antt =====
-- The strings of cidbmessages.c: C strings in memory, and strings on the wire, which are a length
-- of one byte, or of 0xff and two bytes, and then the characters. `unsigned short` lengths wrap at
-- 65536, as `strlen` is cut to them.
pub mod RoundTrip
use fritz2ci.Prelude.{
  ℕ, zero, suc, ◌+◌, ◌%◌, ◌<◌, ◌≡◌, ◌≢◌, Bool, true, false, Option, none, some, List, [], ◌∷◌, ◌++◌,
  All, length, leb, ◌==◌, if◌then◌else◌, ◌>>=◌,
}
use fritz2ci.Memory.{Bytes, load, store, copy, malloc}
use fritz2ci.Wire.{set_uchar, set_ushort, get_uchar, get_ushort}

-- A `char *`: not yet set, NULL, or the start of an object that holds these bytes.
pub data StrPtr : Type 0 where
  unset null : StrPtr
  object : Bytes → StrPtr

-- `strlen`: it faults if the object ends before a NUL.
unfoldable pub strlen : Bytes → Option ℕ
strlen [] = none
strlen (c ∷ s) = if c == 0 then some 0 else (do n ← strlen s; some (suc n))

-- `(unsigned short)strlen(p)`, which faults on NULL.
unfoldable pub cut_strlen : StrPtr → Option ℕ
unfolding strlen
cut_strlen (object s) = do n ← strlen s; some (n % 65536)
cut_strlen _ = none

-- `len = p ? strlen(p) : 0`
unfoldable pub len_or_zero : StrPtr → Option ℕ
unfolding cut_strlen
len_or_zero null = some 0
len_or_zero p = cut_strlen p

-- What can be read through a pointer.
unfoldable pub pointee : StrPtr → Bytes
pointee (object s) = s
pointee _ = []

-- _cidbmsg_strlen: the length, and the number of bytes that hold it.
unfoldable pub msg_strlen : Bytes → Option (ℕ × ℕ)
unfolding get_uchar get_ushort
msg_strlen msg = do
  len ← get_uchar msg 0
  if len == 255 then (do long ← get_ushort msg 1; some (long, 3)) else some (len, 1)

-- _cidbmsg_set_strlen
unfoldable pub set_strlen : ℕ → Bytes → Option (Bytes × ℕ)
unfolding set_uchar set_ushort
set_strlen len msg =
    if leb 255 len
    then (do m₁ ← set_uchar msg 0 0xff; m₂ ← set_ushort m₁ 1 len; some (m₂, 3))
    else (do m₁ ← set_uchar msg 0 len; some (m₁, 1))

-- cidbmsg_write_string
unfoldable pub write_string : StrPtr → Bytes → Option (Bytes × ℕ)
unfolding len_or_zero pointee set_strlen copy
write_string str msg = do
  len ← len_or_zero str
  (msg₁, bytes) ← set_strlen len msg
  msg₂ ← copy len msg₁ bytes (pointee str) 0
  some (msg₂, bytes + len)

module _ (junk : ℕ → ℕ) where
  -- _cidbmsg_read_str
  unfoldable pub read_str : Bytes → ℕ → Option StrPtr
  unfolding copy malloc store
  read_str msg len = do
    buffer ← copy len (malloc junk (len + 1)) 0 msg 0
    buffer' ← store buffer len 0
    some (object buffer')

  -- cidbmsg_read_string; `wanted` says that `str` is not NULL, and the result holds what is stored
  -- there. A NULL `msg` is `none`.
  unfoldable pub read_string : Bool → Option Bytes → Option (StrPtr × ℕ)
  unfolding msg_strlen copy malloc store
  read_string wanted none = some (unset, 0)
  read_string true (some msg) = do
    (len, bytes) ← msg_strlen msg
    buffer ← copy len (malloc junk (len + 1)) 0 msg bytes
    buffer' ← store buffer len 0
    some (object buffer', bytes + len)
  read_string false (some msg) = do (len, bytes) ← msg_strlen msg; some (unset, bytes + len)

-- A text that fits a C string and an `unsigned short` length.
abbrev pub IsText : Bytes → Type 0
IsText t = All (λ c. c ≢ 0) t × (length t < 65536)

-- The C string at `p` is `t`.
abbrev pub Points : StrPtr → Bytes → Type 0
Points (object s) t = (rest : Bytes) × (s ≡ t ++ (0 ∷ rest)) × IsText t
Points _ t = ⊥

-- The C string at `p` is `t`, or `p` is NULL and `t` is empty.
abbrev pub Holds : StrPtr → Bytes → Type 0
Holds (object s) t = (rest : Bytes) × (s ≡ t ++ (0 ∷ rest)) × IsText t
Holds null t = t ≡ []
Holds unset t = ⊥

-- The string that the readers allocate for a text.
abbrev pub c_string : Bytes → StrPtr
c_string t = object (t ++ (0 ∷ []))
