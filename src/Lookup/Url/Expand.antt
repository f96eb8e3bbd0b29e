-- ===== src/Lookup/Url/Expand.antt =====
-- The address with its placeholders filled in, and what a round makes of each part (lookup.c).
use fritz2ci.Prelude.{
  ℕ, zero, suc, ◌+◌, ◌<◌, ◌≡◌, ◌≢◌, refl, sym, ap, subst, ◌∙◌, Bool, true, false, not, Option, some,
  List, [], ◌∷◌, ◌++◌, length, length-append, All, ◌==◌, if◌then◌else◌, ◌>>=◌, arith,
}
use native.Mathlib.Nat.{add-zero}
use fritz2ci.Memory.{Bytes, store}
use fritz2ci.Text.{Text}
use fritz2ci.Numbers.{is_digit}
use fritz2ci.Lookup.Url.{
  opens_pattern, read_pattern, skip_pattern, substitute_diff, measure_round, measure, put_text,
  fill_round, fill,
}

-- The parts of a raw address: a character, a percent sign with a digit, the placeholder.
pub data Piece : Type 0 where
  char : (c : ℕ) → Piece
  code : (d : ℕ) → Piece
  number : Piece

abbrev pub IsPiece : Piece → Type 0
IsPiece (char c) = (c ≢ 0) × (c ≢ b'%')
IsPiece (code d) = is_digit d ≡ true
IsPiece number = Unit

-- The raw address, and the one with the number.
abbrev pub raw : List Piece → Bytes
raw [] = []
raw (char c ∷ ps) = c ∷ raw ps
raw (code d ∷ ps) = b'%' ∷ d ∷ raw ps
raw (number ∷ ps) = b'%' ∷ b'N' ∷ b'U' ∷ b'M' ∷ b'B' ∷ b'E' ∷ b'R' ∷ b'%' ∷ raw ps

abbrev pub expand : Text → List Piece → Bytes
expand t [] = []
expand t (char c ∷ ps) = c ∷ expand t ps
expand t (code d ∷ ps) = b'%' ∷ d ∷ expand t ps
expand t (number ∷ ps) = t ++ expand t ps

-- The room that the numbers take, and the room of their placeholders.
abbrev pub added : Text → List Piece → ℕ
added t [] = 0
added t (char c ∷ ps) = added t ps
added t (code d ∷ ps) = added t ps
added t (number ∷ ps) = length t + added t ps

abbrev pub taken : List Piece → ℕ
taken [] = 0
taken (char c ∷ ps) = taken ps
taken (code d ∷ ps) = taken ps
taken (number ∷ ps) = 8 + taken ps

pub length-expand :
    (t : Text) (ps : List Piece) → length (expand t ps) + taken ps ≡ length (raw ps) + added t ps
length-expand t [] = refl
length-expand t (char c ∷ ps) = omega (arith, length-expand t ps)
length-expand t (code d ∷ ps) = omega (arith, length-expand t ps)
length-expand t (number ∷ ps) = omega (arith, length-expand t ps, length-append t (expand t ps))

-- The rounds on a character that is copied: it opens no pattern.
module _ (t : Text) where
  measure_char :
      (n : ℕ) (c d : ℕ) (s : Bytes) (plus minus : ℕ)
      → (c == 0) ≡ false
      → (if c == b'%' then not (is_digit d) else false) ≡ false
      → measure (suc n) t (c ∷ d ∷ s) plus minus ≡ measure n t (d ∷ s) plus minus
  unfolding measure measure_round opens_pattern
  measure_char n c d s plus minus e e' = ap on_end e ∙ rw e' refl
    where
      on_end : Bool → Option (ℕ × ℕ)
      on_end b = elim b [
        | true ↦ some (plus, minus)
        | false ↦ (do (s', p, m) ← measure_round t c (d ∷ s) plus minus; measure n t s' p m)
      ]

  pub fill_char :
      (n : ℕ) (c d : ℕ) (s : Bytes) (j : ℕ) (out out' : Bytes)
      → (c == 0) ≡ false
      → (if c == b'%' then not (is_digit d) else false) ≡ false
      → store out j c ≡ some out'
      → fill (suc n) t (c ∷ d ∷ s) j out ≡ fill n t (d ∷ s) (j + 1) out'
  unfolding fill fill_round opens_pattern
  fill_char n c d s j out out' e e' e'' = ap on_end e ∙ rw (e', e'') refl
    where
      on_end : Bool → Option Bytes
      on_end b = elim b [
        | true ↦ store out j 0
        | false ↦ (do (s', j', o) ← fill_round t c (d ∷ s) j out; fill n t s' j' o)
      ]

  measure_number :
      (n : ℕ) (s : Bytes) (plus minus : ℕ)
      → measure (suc n) t (b'%' ∷ b'N' ∷ b'U' ∷ b'M' ∷ b'B' ∷ b'E' ∷ b'R' ∷ b'%' ∷ s) plus minus
        ≡ measure n t s (plus + length t) (minus + 8)
  unfolding measure measure_round opens_pattern substitute_diff read_pattern skip_pattern
  measure_number n s plus minus = refl

  pub fill_number :
      (n : ℕ) (s : Bytes) (j : ℕ) (out out' : Bytes)
      → put_text t j out ≡ some out'
      → fill (suc n) t (b'%' ∷ b'N' ∷ b'U' ∷ b'M' ∷ b'B' ∷ b'E' ∷ b'R' ∷ b'%' ∷ s) j out
        ≡ fill n t s (j + length t) out'
  unfolding fill fill_round opens_pattern read_pattern
  fill_number n s j out out' e = rw e refl

-- What follows a part is a character at least, its NUL if nothing else.
plain_lem : (c d : ℕ) → c ≢ b'%' → (if c == b'%' then not (is_digit d) else false) ≡ false
plain_lem c d n = let e : (c == b'%') ≡ false = ground (arith, n) in rw e refl

pub digit_plain : (d : ℕ) → is_digit d ≡ true → (d ≢ 0) × (d ≢ b'%')
digit_plain d h = (
  λ e. (let k : false ≡ true = subst (λ z. is_digit z ≡ true) e h in cc),
  λ e. (let k : false ≡ true = subst (λ z. is_digit z ≡ true) e h in cc),
)

pub code_lem : (d : ℕ) → is_digit d ≡ true → not (is_digit d) ≡ false
code_lem d h = rw h refl

-- What is raw and its NUL, with the first character told.
head_of : (ps : List Piece) (tail : Bytes) → (d : ℕ) × (s : Bytes) × (raw ps ++ (0 ∷ tail) ≡ d ∷ s)
head_of [] tail = (0, tail, refl)
head_of (char c ∷ ps) tail = (c, raw ps ++ (0 ∷ tail), refl)
head_of (code d ∷ ps) tail = (b'%', d ∷ (raw ps ++ (0 ∷ tail)), refl)
head_of (number ∷ ps) tail = (b'%', _, refl)

nonzero_lem : (c : ℕ) → c ≢ 0 → (c == 0) ≡ false
nonzero_lem c n = ground (arith, n)

module _ (t : Text) where
  -- A character that is copied, in front of the rest of the address.
  measure_next :
      (n c : ℕ) (ps : List Piece) (tail : Bytes) (plus minus : ℕ)
      → c ≢ 0
      → c ≢ b'%'
      → measure (suc n) t (c ∷ (raw ps ++ (0 ∷ tail))) plus minus
        ≡ measure n t (raw ps ++ (0 ∷ tail)) plus minus
  measure_next n c ps tail plus minus h h' =
      let (d, s, e) = head_of ps tail in
      subst (λ z. measure (suc n) t (c ∷ z) plus minus ≡ measure n t z plus minus) (sym e)
        (measure_char t n c d s plus minus (nonzero_lem c h) (plain_lem c d h'))

  pub fill_next :
      (n c : ℕ) (ps : List Piece) (tail : Bytes) (j : ℕ) (out out' : Bytes)
      → c ≢ 0
      → c ≢ b'%'
      → store out j c ≡ some out'
      → fill (suc n) t (c ∷ (raw ps ++ (0 ∷ tail))) j out
        ≡ fill n t (raw ps ++ (0 ∷ tail)) (j + 1) out'
  fill_next n c ps tail j out out' h h' e' =
      let (d, s, e) = head_of ps tail in
      subst (λ z. fill (suc n) t (c ∷ z) j out ≡ fill n t z (j + 1) out') (sym e)
        (fill_char t n c d s j out out' (nonzero_lem c h) (plain_lem c d h') e')

  pub measure-raw :
      (n : ℕ) (ps : List Piece) (tail : Bytes) (plus minus : ℕ)
      → All IsPiece ps
      → length (raw ps) < n
      → measure n t (raw ps ++ (0 ∷ tail)) plus minus ≡ some (plus + added t ps, minus + taken ps)
  unfolding measure
  measure-raw zero ps tail plus minus h k = absurd (omega arith)
  measure-raw (suc n) [] tail plus minus h k =
      (λ i. some (sym (add-zero plus) i, sym (add-zero minus) i))
  measure-raw (suc n) (char c ∷ ps) tail plus minus h k =
      measure_next n c ps tail plus minus h.0.0 h.0.1
      ∙ measure-raw n ps tail plus minus h.1 (omega arith)
  measure-raw (suc zero) (code d ∷ ps) tail plus minus h k = absurd (omega arith)
  measure-raw (suc (suc n)) (code d ∷ ps) tail plus minus h k =
      let (h₁, h₂) = digit_plain d h.0 in
      measure_char t (suc n) b'%' d (raw ps ++ (0 ∷ tail)) plus minus refl (code_lem d h.0)
      ∙ measure_next n d ps tail plus minus h₁ h₂
      ∙ measure-raw n ps tail plus minus h.1 (omega arith)
  measure-raw (suc n) (number ∷ ps) tail plus minus h k =
      measure_number t n (raw ps ++ (0 ∷ tail)) plus minus
      ∙ measure-raw n ps tail (plus + length t) (minus + 8) h.1 (omega arith)
      ∙ λ i. some (sums (length t) (added t ps) i, more (taken ps) i)
    where
      sums : (x y : ℕ) → plus + x + y ≡ plus + (x + y)
      sums x y = omega arith

      more : (y : ℕ) → minus + 8 + y ≡ minus + (8 + y)
      more y = omega arith
