-- ===== src/Lookup/Url/Fill.antt =====
-- That the address is computed in place, with the room that it needs, and when it is not (lookup.c).
use fritz2ci.Prelude.{
  ℕ, zero, suc, ◌+◌, ◌-◌, ◌<◌, ◌≡◌, refl, sym, ap, ◌∙◌, true, false, Option, none, some, List, [],
  ◌∷◌, ◌++◌, append_assoc, append-nil, length, length-append, length-tabulate, All, ◌==◌, ◌>>=◌,
  arith,
}
use fritz2ci.Memory.{Bytes, store, malloc}
use fritz2ci.Memory.Emits.{store_lem}
use fritz2ci.Text.{Text, same, text_of}
use fritz2ci.Lookup.Url.{
  number_word, opens_pattern, read_pattern, put_text, fill_round, fill, prepare_url,
}
use fritz2ci.Lookup.Url.Expand.{
  Piece, char, code, number, IsPiece, raw, expand, added, taken, length-expand, measure-raw,
  fill_next, fill_number, fill_char, digit_plain, code_lem,
}

-- The next cell is written: it joins what is written.
store_next :
    (w : Bytes) (x c : ℕ) (g : Bytes)
    → store (w ++ (x ∷ g)) (length w) c ≡ some ((w ++ (c ∷ [])) ++ g)
store_next w x c g = store_lem w g x c (length w) refl ∙ ap some (sym (append_assoc w (c ∷ []) g))

length_next : (w : Bytes) (c : ℕ) → length (w ++ (c ∷ [])) ≡ length w + 1
length_next w c = length-append w (c ∷ [])

put_text_lem :
    (t w g : Bytes)
    → length t < length g
    → (g' : Bytes) × (length g' + length t ≡ length g)
      × (put_text t (length w) (w ++ g) ≡ some ((w ++ t) ++ g'))
unfolding put_text
put_text_lem [] w [] h = absurd (omega arith)
put_text_lem [] w (x ∷ g) h = (
  0 ∷ g,
  omega arith,
  store_lem w g x 0 (length w) refl ∙ ap (λ z. some (z ++ (0 ∷ g))) (sym (append-nil w)),
)
put_text_lem (c ∷ t) w [] h = absurd (omega arith)
put_text_lem (c ∷ t) w (x ∷ g) h =
    let (g', k, e) = put_text_lem t (w ++ (c ∷ [])) g (omega arith) in
    (
      g',
      omega (arith, k),
      rw (store_next w x c g) (
          ap (λ j. put_text t j ((w ++ (c ∷ [])) ++ g)) (sym (length_next w c))
          ∙ e
          ∙ ap (λ z. some (z ++ g')) (append_assoc w (c ∷ []) t)),
    )

-- The loop on the parts fills a gap of the right size.
abbrev Fills : ℕ → Text → List Piece → Bytes → Bytes → Bytes → Type 0
Fills n t ps tail w g =
    fill n t (raw ps ++ (0 ∷ tail)) (length w) (w ++ g) ≡ some (w ++ (expand t ps ++ (0 ∷ [])))

-- A character is copied, and then the rest.
copied :
    (n c : ℕ) (t s : Bytes) (x : ℕ) (w g e : Bytes) (o : Option Bytes)
    → o ≡ fill n t s (length w + 1) ((w ++ (c ∷ [])) ++ g)
    → fill n t s (length (w ++ (c ∷ []))) ((w ++ (c ∷ [])) ++ g) ≡ some ((w ++ (c ∷ [])) ++ e)
    → o ≡ some (w ++ (c ∷ e))
copied n c t s x w g e o h k =
    h
    ∙ ap (λ j. fill n t s j ((w ++ (c ∷ [])) ++ g)) (sym (length_next w c))
    ∙ k
    ∙ ap some (append_assoc w (c ∷ []) e)

fill-raw :
    (n : ℕ) (t : Text) (ps : List Piece) (tail w g : Bytes)
    → All IsPiece ps
    → length (raw ps) < n
    → length g ≡ length (expand t ps) + 1
    → Fills n t ps tail w g
unfolding fill
fill-raw zero t ps tail w g h k m = absurd (omega arith)
fill-raw (suc n) t [] tail w [] h k m = absurd (omega arith)
fill-raw (suc n) t [] tail w (x ∷ []) h k m = store_lem w [] x 0 (length w) refl
fill-raw (suc n) t [] tail w (x ∷ y ∷ g) h k m = absurd (omega arith)
fill-raw (suc n) t (char c ∷ ps) tail w [] h k m = absurd (omega arith)
fill-raw (suc n) t (char c ∷ ps) tail w (x ∷ g) h k m =
    copied n c t (raw ps ++ (0 ∷ tail)) x w g (expand t ps ++ (0 ∷ [])) _
      (fill_next t n c ps tail (length w) _ _ h.0.0 h.0.1 (store_next w x c g))
      (fill-raw n t ps tail (w ++ (c ∷ [])) g h.1 (omega arith) (omega arith))
fill-raw (suc zero) t (code d ∷ ps) tail w g h k m = absurd (omega arith)
fill-raw (suc (suc n)) t (code d ∷ ps) tail w [] h k m = absurd (omega arith)
fill-raw (suc (suc n)) t (code d ∷ ps) tail w (x ∷ []) h k m = absurd (omega arith)
fill-raw (suc (suc n)) t (code d ∷ ps) tail w (x ∷ y ∷ g) h k m =
    let (h₁, h₂) = digit_plain d h.0 in
    copied (suc n) b'%' t (d ∷ (raw ps ++ (0 ∷ tail))) x w (y ∷ g) (d ∷ (expand t ps ++ (0 ∷ []))) _
      (fill_char t (suc n) b'%' d (raw ps ++ (0 ∷ tail)) (length w) _ _ refl (code_lem d h.0)
        (store_next w x b'%' (y ∷ g)))
      (copied n d t (raw ps ++ (0 ∷ tail)) y (w ++ (b'%' ∷ [])) g (expand t ps ++ (0 ∷ [])) _
        (fill_next t n d ps tail (length (w ++ (b'%' ∷ []))) _ _ h₁ h₂
          (store_next (w ++ (b'%' ∷ [])) y d g))
        (fill-raw n t ps tail ((w ++ (b'%' ∷ [])) ++ (d ∷ [])) g h.1 (omega arith) (omega arith)))
fill-raw (suc n) t (number ∷ ps) tail w g h k m =
    let m' : length g ≡ length t + length (expand t ps) + 1 =
      omega (arith, length-append t (expand t ps)) in
    let (g', room, e) = put_text_lem t w g (omega arith) in
    let rest = fill-raw n t ps tail (w ++ t) g' h.1 (omega arith) (omega arith) in
    fill_number t n (raw ps ++ (0 ∷ tail)) (length w) (w ++ g) _ e
    ∙ ap (λ j. fill n t (raw ps ++ (0 ∷ tail)) j ((w ++ t) ++ g')) (sym (length-append w t))
    ∙ rest
    ∙ ap some (
        append_assoc w t (expand t ps ++ (0 ∷ []))
        ∙ ap (λ z. w ++ z) (sym (append_assoc t (expand t ps) (0 ∷ []))))

text_of-raw :
    (ps : List Piece) (tail : Bytes) → All IsPiece ps → text_of (raw ps ++ (0 ∷ tail)) ≡ raw ps
text_of-raw [] tail h = refl
text_of-raw (char c ∷ ps) tail h =
    let e : (c == 0) ≡ false = ground (arith, h.0.0) in
    rw e (ap (λ z. c ∷ z) (text_of-raw ps tail h.1))
text_of-raw (code d ∷ ps) tail h =
    let n = (digit_plain d h.0).0 in
    let e : (d == 0) ≡ false = ground (arith, n) in
    rw e (ap (λ z. b'%' ∷ d ∷ z) (text_of-raw ps tail h.1))
text_of-raw (number ∷ ps) tail h =
    ap (λ z. b'%' ∷ b'N' ∷ b'U' ∷ b'M' ∷ b'B' ∷ b'E' ∷ b'R' ∷ b'%' ∷ z) (text_of-raw ps tail h.1)

-- A raw address whose percent signs begin a placeholder for the number or stand before a digit, with
-- its NUL: with one round more than it has characters, both loops end with no access outside of the
-- arrays, and the address is the raw one with the number in the placeholders, and its NUL, in exactly
-- the memory that was asked for.
pub prepare_url-expand :
    (junk : ℕ → ℕ) (fuel : ℕ) (ps : List Piece) (t : Text) (tail : Bytes)
    → All IsPiece ps
    → length (raw ps) < fuel
    → prepare_url junk fuel (raw ps ++ (0 ∷ tail)) t ≡ some (expand t ps ++ (0 ∷ []))
unfolding prepare_url malloc
prepare_url-expand junk fuel ps t tail h k =
    let size = length (text_of (raw ps ++ (0 ∷ tail))) + 1 + (0 + added t ps) - (0 + taken ps) in
    let room : size ≡ length (expand t ps) + 1 =
      omega (arith, ap length (text_of-raw ps tail h), length-expand t ps) in
    rw (measure-raw t fuel ps tail 0 0 h k)
      (fill-raw fuel t ps tail [] (malloc junk size) h k (length-tabulate size junk ∙ room))

-- A placeholder of another name makes the second loop run for ever: if a percent sign opens a pattern
-- that is read within its array and is not the word for the number, a round changes nothing, so that
-- no number of rounds ends the loop.
pub fill-stuck :
    (fuel : ℕ) (t : Text) (p s s' : Bytes) (j : ℕ) (out : Bytes)
    → opens_pattern b'%' s ≡ some true
    → read_pattern 0 s ≡ some (p, s')
    → same (text_of p) number_word ≡ false
    → (fill_round t b'%' s j out ≡ some (b'%' ∷ s, j, out)) × (fill fuel t (b'%' ∷ s) j out ≡ none)
unfolding fill fill_round
fill-stuck fuel t p s s' j out e e' e'' = (still, loops fuel)
  where
    still : fill_round t b'%' s j out ≡ some (b'%' ∷ s, j, out)
    still = rw (e, e', e'') refl

    loops : (n : ℕ) → fill n t (b'%' ∷ s) j out ≡ none
    loops zero = refl
    loops (suc n) = ap (λ o. o >>= λ z. fill n t z.0 z.1 z.2) still ∙ loops n
