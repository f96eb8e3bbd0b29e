-- ===== src/Wire/RoundTrip.antt =====
-- Bytes put back together give the value that was taken apart, and the other way round.
use fritz2ci.Prelude.{ℕ, ◌+◌, ◌*◌, ◌/◌, ◌%◌, ◌≡◌, [], ◌∷◌, arith}
use fritz2ci.Wire.{IsByte, le8, IsU16, IsU32, le16, le32}

pub join8 : (v : ℕ) → IsByte v → v % 256 % 256 ≡ v
join8 v h = omega arith

pub join16 : (v : ℕ) → IsU16 v → v % 256 % 256 + v / 256 % 256 % 256 * 256 ≡ v
join16 v h = omega arith

pub join32 :
    (v : ℕ)
    → IsU32 v
    → v % 256 % 256
        + v / 256 % 256 % 256 * 256
        + v / 65536 % 256 % 256 * 65536
        + v / 16777216 % 256 % 256 * 16777216
      ≡ v
join32 v h = omega arith

pub split8 : (a : ℕ) → IsByte a → le8 (a % 256) ≡ a ∷ []
split8 a ha = ground arith

pub split16 : (a b : ℕ) → IsByte a → IsByte b → le16 (a % 256 + b % 256 * 256) ≡ a ∷ b ∷ []
split16 a b ha hb = ground arith

pub split32 :
    (a b c d : ℕ)
    → IsByte a
    → IsByte b
    → IsByte c
    → IsByte d
    → le32 (a % 256 + b % 256 * 256 + c % 256 * 65536 + d % 256 * 16777216) ≡ a ∷ b ∷ c ∷ d ∷ []
split32 a b c d ha hb hc hd = ground arith
