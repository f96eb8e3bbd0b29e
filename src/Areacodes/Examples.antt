-- ===== src/Areacodes/Examples.antt =====
-- Searches in a small file.
use fritz2ci.Prelude.{inr, ℕ, ◌≡◌, ◌⊎◌, refl, true, some, List, [], ◌∷◌, drop, arith}
use fritz2ci.Text.{Text, strcpy}
use fritz2ci.Areacodes.{
  no_index, Area, char_at, unknown, line_index, read_codes, lines_at, get_area_code,
}
use fritz2ci.Areacodes.Search.{Found, get_area_code-Outcome}
use fritz2ci.Areacodes.Bounds.{get_area_code-returns}
use fritz2ci.Areacodes.Lines.{read_codes-lines_at}

-- `0201 E`, `0208 O` and `0351 D`, each with its end of line.
abbrev essen : Text
essen = b'0' ∷ b'2' ∷ b'0' ∷ b'1' ∷ 32 ∷ b'E' ∷ 10 ∷ []

abbrev oberhausen : Text
oberhausen = b'0' ∷ b'2' ∷ b'0' ∷ b'8' ∷ 32 ∷ b'O' ∷ 10 ∷ []

abbrev dresden : Text
dresden = b'0' ∷ b'3' ∷ b'5' ∷ b'1' ∷ 32 ∷ b'D' ∷ 10 ∷ []

abbrev file : List Text
file = essen ∷ oberhausen ∷ dresden ∷ []

abbrev in_dresden : Text
in_dresden = b'0' ∷ b'3' ∷ b'5' ∷ b'1' ∷ b'7' ∷ []

abbrev blank : Area
blank = record { code = []; number = []; area = [] }

abbrev answer : Area
answer = record { code = b'0' ∷ b'3' ∷ b'5' ∷ b'1' ∷ []; number = b'7' ∷ []; area = b'D' ∷ [] }

abbrev result : Area × ℕ
result = (answer, 0)

get_area_code-Outcome_example :
    ((result.1 ≡ 0) × Found file in_dresden answer)
    ⊎ ((result.1 ≡ 1)
        × (answer.number ≡ in_dresden)
        × (answer.area ≡ unknown)
        × ((answer.code ≡ unknown) ⊎ (answer.code ≡ char_at in_dresden 0 ∷ drop 1 unknown)))
unfolding get_area_code read_codes strcpy
get_area_code-Outcome_example =
    get_area_code-Outcome 0 true (read_codes 0 file no_index) file in_dresden blank result
      (inr refl) refl

get_area_code-returns_example :
    (r : Area × ℕ) × (get_area_code 0 true true (read_codes 0 file no_index) file in_dresden blank
      ≡ some r)
get_area_code-returns_example =
    get_area_code-returns 0 true true (read_codes 0 file no_index) file in_dresden blank
      (omega arith) (omega arith, (omega arith, (omega arith, tt)))

-- The search for Essen begins behind its line.
read_codes-lines_at_example :
    lines_at (read_codes 0 file no_index (line_index oberhausen)) file ≡ oberhausen ∷ dresden ∷ []
read_codes-lines_at_example =
    read_codes-lines_at essen [] oberhausen (dresden ∷ []) refl tt (omega arith, tt)
