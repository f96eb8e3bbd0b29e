-- ===== src/Numbers/Valid.antt =====
-- Which strings is_valid_number accepts (dbhandler.c).
use fritz2ci.Prelude.{ℕ, ◌≡◌, ◌≢◌, refl, true, false, some, [], ◌∷◌, ◌++◌, All, ◌==◌, arith}
use fritz2ci.Memory.{Bytes}
use fritz2ci.Numbers.{is_digit, digits_only, is_valid_number}

-- A digit is no NUL.
digit-nonzero : (c : ℕ) → is_digit c ≡ true → (c == 0) ≡ false
digit-nonzero c h = ground arith

digits_only-digits :
    (t post : Bytes) → All (λ c. is_digit c ≡ true) t → digits_only (t ++ (0 ∷ post)) ≡ some true
unfolding digits_only
digits_only-digits [] post h = refl
digits_only-digits (c ∷ t) post (h, hs) =
    let z : (c == 0) ≡ false = digit-nonzero c h in rw (z, h, digits_only-digits t post hs)

digits_only-other :
    (t : Bytes) (c : ℕ) (rest : Bytes)
    → All (λ c. is_digit c ≡ true) t
    → is_digit c ≡ false
    → c ≢ 0
    → digits_only (t ++ (c ∷ rest)) ≡ some false
unfolding digits_only
digits_only-other [] c rest h e n = let z : (c == 0) ≡ false = ground arith in rw (z, e)
digits_only-other (d ∷ t) c rest (h, hs) e n =
    let z : (d == 0) ≡ false = digit-nonzero d h in rw (z, h, digits_only-other t c rest hs e n)

-- A string that begins with a digit and goes on with digits to its NUL is a valid number; one in
-- which something else but a NUL follows the digits is not, whatever stands behind. Neither reads
-- further than to that place.
pub is_valid_number-digits :
    (d : ℕ) (t post : Bytes) (c : ℕ)
    → is_digit d ≡ true
    → All (λ c. is_digit c ≡ true) t
    → is_digit c ≡ false
    → c ≢ 0
    → (is_valid_number (some ((d ∷ t) ++ (0 ∷ post))) ≡ some true)
      × (is_valid_number (some ((d ∷ t) ++ (c ∷ post))) ≡ some false)
unfolding is_valid_number
is_valid_number-digits d t post c h hs e n =
    let z : (d == 0) ≡ false = digit-nonzero d h in
    (rw (z, h) (digits_only-digits t post hs), rw (z, h) (digits_only-other t c post hs e n))
