-- ===== src/Lookup/Escapes/Examples.antt =====
-- The removal of escapes on concrete strings.
use fritz2ci.Prelude.{◌≡◌, some, [], ◌∷◌, ◌++◌, arith}
use fritz2ci.Memory.{Bytes}
use fritz2ci.Lookup.Escapes.{remove_escapes}
use fritz2ci.Lookup.Escapes.Decode.{decode, encode, remove_escapes-decode, remove_escapes-encode}

-- `a%20b%2`, and `a b`.
abbrev escaped_name : Bytes
escaped_name = b'a' ∷ b'%' ∷ b'2' ∷ b'0' ∷ b'b' ∷ b'%' ∷ b'2' ∷ []

abbrev plain_name : Bytes
plain_name = b'a' ∷ 32 ∷ b'b' ∷ []

remove_escapes-decode_example :
    (rest : Bytes) × (remove_escapes 8 (escaped_name ++ (0 ∷ 7 ∷ []))
      ≡ some (decode escaped_name ++ (0 ∷ rest)))
remove_escapes-decode_example =
    remove_escapes-decode escaped_name (7 ∷ []) 8
      (
        omega arith,
        (
          omega arith,
          (omega arith, (omega arith, (omega arith, (omega arith, (omega arith, tt))))),
        ),
      )
      (omega arith)

remove_escapes-encode_example :
    (rest : Bytes) × (remove_escapes 9 (encode plain_name ++ (0 ∷ []))
      ≡ some (plain_name ++ (0 ∷ rest)))
remove_escapes-encode_example =
    remove_escapes-encode plain_name [] 9
      ((omega arith, omega arith), ((omega arith, omega arith), ((omega arith, omega arith), tt)))
      (omega arith)
