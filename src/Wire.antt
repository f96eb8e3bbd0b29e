-- ===== src/Wire.antt =====
-- cidbmessages.h: the macros that write and read little-endian integers of 1, 2 and 4 bytes at an
-- offset. `& 0xff` and `>> 8 * k` are `% 256` and `/ 256 ^ k`; the `|` of bytes shifted to their
-- places is a sum.
pub mod RoundTrip
use fritz2ci.Prelude.{ℕ, ◌+◌, ◌*◌, ◌/◌, ◌%◌, ◌<◌, ◌^◌, Option, none, some, [], ◌∷◌, ◌>>=◌}
use fritz2ci.Memory.{Bytes, load, store}

unfoldable pub set_uchar : Bytes → ℕ → ℕ → Option Bytes
unfolding store
set_uchar dst off val = store dst off (val % 256)

unfoldable pub set_ushort : Bytes → ℕ → ℕ → Option Bytes
unfolding store
set_ushort dst off val = do d₁ ← store dst off (val % 256); store d₁ (off + 1) (val / 256 % 256)

unfoldable pub set_ulong : Bytes → ℕ → ℕ → Option Bytes
unfolding store
set_ulong dst off val = do
  d₁ ← store dst off (val % 256)
  d₂ ← store d₁ (off + 1) (val / 256 % 256)
  d₃ ← store d₂ (off + 2) (val / 65536 % 256)
  store d₃ (off + 3) (val / 16777216 % 256)

unfoldable pub get_uchar : Bytes → ℕ → Option ℕ
unfolding load
get_uchar src off = do b ← load src off; some (b % 256)

unfoldable pub get_ushort : Bytes → ℕ → Option ℕ
unfolding load
get_ushort src off = do b₀ ← load src off; b₁ ← load src (off + 1); some (b₀ % 256 + b₁ % 256 * 256)

unfoldable pub get_ulong : Bytes → ℕ → Option ℕ
unfolding load
get_ulong src off = do
  b₀ ← load src off
  b₁ ← load src (off + 1)
  b₂ ← load src (off + 2)
  b₃ ← load src (off + 3)
  some (b₀ % 256 + b₁ % 256 * 256 + b₂ % 256 * 65536 + b₃ % 256 * 16777216)

abbrev pub IsByte : ℕ → Type 0
IsByte b = b < 256

abbrev pub IsU16 : ℕ → Type 0
IsU16 v = v < 65536

abbrev pub IsU32 : ℕ → Type 0
IsU32 v = v < 4294967296

-- The bytes of a value, lowest first.
abbrev pub le8 : ℕ → Bytes
le8 v = (v % 256) ∷ []

abbrev pub le16 : ℕ → Bytes
le16 v = (v % 256) ∷ (v / 256 % 256) ∷ []

abbrev pub le32 : ℕ → Bytes
le32 v = (v % 256) ∷ (v / 256 % 256) ∷ (v / 65536 % 256) ∷ (v / 16777216 % 256) ∷ []

-- `unsigned int` addition.
abbrev pub add32 : ℕ → ℕ → ℕ
add32 a b = (a + b) % 4294967296
