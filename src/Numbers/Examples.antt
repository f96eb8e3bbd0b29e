-- ===== src/Numbers/Examples.antt =====
-- The theorem on numbers, applied to "0351" and "0351x".
use fritz2ci.Prelude.{◌≡◌, refl, true, false, some, [], ◌∷◌, ◌++◌, arith}
use fritz2ci.Numbers.{is_valid_number}
use fritz2ci.Numbers.Valid.{is_valid_number-digits}

is_valid_number-digits_example :
    (is_valid_number (some ((48 ∷ 51 ∷ 53 ∷ 49 ∷ []) ++ (0 ∷ []))) ≡ some true)
    × (is_valid_number (some ((48 ∷ 51 ∷ 53 ∷ 49 ∷ []) ++ (120 ∷ []))) ≡ some false)
is_valid_number-digits_example =
    is_valid_number-digits 48 (51 ∷ 53 ∷ 49 ∷ []) [] 120 refl (refl, (refl, (refl, tt))) refl
      (omega arith)
