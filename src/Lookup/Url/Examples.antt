-- ===== src/Lookup/Url/Examples.antt =====
-- The addresses on concrete strings.
use fritz2ci.Prelude.{◌≡◌, refl, none, some, List, [], ◌∷◌, ◌++◌, arith}
use fritz2ci.Memory.{Bytes}
use fritz2ci.Text.{Text}
use fritz2ci.Lookup.Url.{fill_round, fill, opens_pattern, read_pattern, prepare_url}
use fritz2ci.Lookup.Url.Expand.{Piece, char, code, number, raw, expand}
use fritz2ci.Lookup.Url.Fill.{prepare_url-expand, fill-stuck}

-- `?q=%20%NUMBER%`, and the number `049`.
abbrev pieces : List Piece
pieces = char b'?' ∷ char b'q' ∷ char b'=' ∷ code b'2' ∷ char b'0' ∷ number ∷ []

abbrev caller_number : Text
caller_number = b'0' ∷ b'4' ∷ b'9' ∷ []

prepare_url-expand_example :
    prepare_url (λ i. i) 40 (raw pieces ++ (0 ∷ 7 ∷ [])) caller_number
    ≡ some (expand caller_number pieces ++ (0 ∷ []))
prepare_url-expand_example =
    prepare_url-expand (λ i. i) 40 pieces caller_number (7 ∷ [])
      (
        (omega arith, omega arith),
        (
          (omega arith, omega arith),
          ((omega arith, omega arith), (refl, ((omega arith, omega arith), (tt, tt)))),
        ),
      )
      (omega arith)

-- What follows the first percent sign of `%X%`.
abbrev unknown : Bytes
unknown = b'X' ∷ b'%' ∷ 0 ∷ []

fill-stuck_example :
    (fill_round caller_number b'%' unknown 0 (0 ∷ []) ≡ some (b'%' ∷ unknown, 0, 0 ∷ []))
    × (fill 100 caller_number (b'%' ∷ unknown) 0 (0 ∷ []) ≡ none)
unfolding opens_pattern read_pattern
fill-stuck_example =
    fill-stuck 100 caller_number (b'X' ∷ []) unknown (0 ∷ []) 0 (0 ∷ []) refl refl refl
