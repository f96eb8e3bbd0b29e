-- ===== src/Msn/Lines.antt =====
-- What a line of the file of aliases is read as (msn_lookup.c).
use fritz2ci.Prelude.{
  ℕ, suc, ◌+◌, ◌≤◌, ◌<◌, ◌≡◌, refl, sym, ap, ◌∙◌, Bool, true, false, some, [], ◌∷◌, ◌++◌,
  append_assoc, length, length-append, All, ltb, arith,
}
use fritz2ci.Memory.{Bytes, store}
use fritz2ci.Memory.Emits.{store_lem}
use fritz2ci.Msn.{blank, ends_line, ends_word, skip_blanks, copy_field, read_fields}

skip_blanks_lem :
    (bs : Bytes) (c : ℕ) (rest : Bytes)
    → All (λ b. blank b ≡ true) bs
    → blank c ≡ false
    → skip_blanks (bs ++ (c ∷ rest)) ≡ some (c ∷ rest)
unfolding skip_blanks
skip_blanks_lem [] c rest h e = rw e
skip_blanks_lem (b ∷ bs) c rest (h, hs) e = rw h (skip_blanks_lem bs c rest hs e)

copy_field_lem :
    (ends : ℕ → Bool) (base size : ℕ) (word : Bytes) (c : ℕ) (rest pre mid post : Bytes) (j : ℕ)
    → All (λ x. ends x ≡ false) word
    → ends c ≡ true
    → j + length word ≤ size
    → length pre ≡ base + j
    → length mid ≡ length word
    → copy_field ends base size (word ++ (c ∷ rest)) (pre ++ (mid ++ post)) j
      ≡ some (c ∷ rest, pre ++ (word ++ post), j + length word)
unfolding copy_field
copy_field_lem ends base size [] c rest pre [] post j h e le ep em =
    let z : j ≡ j + 0 = omega arith in rw e (ap (λ n. some (c ∷ rest, pre ++ post, n)) z)
copy_field_lem ends base size [] c rest pre (m ∷ mid) post j h e le ep em = absurd (omega arith)
copy_field_lem ends base size (x ∷ word) c rest pre [] post j h e le ep em = absurd (omega arith)
copy_field_lem ends base size (x ∷ word) c rest pre (m ∷ mid) post j (h, hs) e le ep em =
    let room : ltb j size ≡ true = ground arith in
    let n : suc j + length word ≡ j + suc (length word) = omega arith in
    rw (h, room, store_lem pre (mid ++ post) m x (base + j) (sym ep))
      (ap (λ z. copy_field ends base size (word ++ (c ∷ rest)) z (suc j))
          (sym (append_assoc pre (x ∷ []) (mid ++ post)))
        ∙ copy_field_lem ends base size word c rest (pre ++ (x ∷ [])) mid post (suc j) hs e
            (omega arith) (omega (arith, length-append pre (x ∷ []))) (omega arith)
        ∙ (λ i. some (c ∷ rest, append_assoc pre (x ∷ []) (word ++ post) i, n i)))

-- An entry: a number, a NUL and what is behind it, and an alias in the same way.
abbrev pub entry_of : Bytes → Bytes → Bytes → Bytes → Bytes
entry_of word za text zb = (word ++ (0 ∷ za)) ++ (text ++ (0 ∷ zb))

pub read_fields_lem :
    (bs : Bytes) (x : ℕ) (w : Bytes) (b : ℕ) (bs₂ : Bytes) (y : ℕ) (t : Bytes) (c : ℕ)
    (rest zn za zm zb : Bytes)
    → All (λ b. blank b ≡ true) bs
    → blank x ≡ false
    → All (λ x. ends_word x ≡ false) (x ∷ w)
    → All (λ b. blank b ≡ true) (b ∷ bs₂)
    → ends_word b ≡ true
    → blank y ≡ false
    → All (λ x. ends_line x ≡ false) (y ∷ t)
    → ends_line c ≡ true
    → length (x ∷ w) + suc (length za) ≡ 32
    → length (y ∷ t) < 256
    → length zn ≡ length (x ∷ w)
    → length zm ≡ length (y ∷ t)
    → read_fields (bs ++ ((x ∷ w) ++ ((b ∷ bs₂) ++ ((y ∷ t) ++ (c ∷ rest))))) (entry_of zn za zm zb)
      ≡ some (entry_of (x ∷ w) za (y ∷ t) zb)
unfolding read_fields
read_fields_lem bs x w b bs₂ y t c rest zn za zm zb hbs hx hw hb eb hy ht ec n m en em =
    let word : Bytes = x ∷ w in
    let text : Bytes = y ∷ t in
    let r₂ : Bytes = (b ∷ bs₂) ++ (text ++ (c ∷ rest)) in
    let pre : Bytes = word ++ (0 ∷ za) in
    let lp : length pre ≡ 32 = length-append word (0 ∷ za) ∙ n in
    let first : copy_field ends_word 0 32 (word ++ r₂) (entry_of zn za zm zb) 0
        ≡ some (r₂, word ++ ((0 ∷ za) ++ (zm ++ (0 ∷ zb))), 0 + length word) =
      ap (λ z. copy_field ends_word 0 32 (word ++ r₂) z 0)
        (append_assoc zn (0 ∷ za) (zm ++ (0 ∷ zb)))
      ∙ copy_field_lem ends_word 0 32 word b (bs₂ ++ (text ++ (c ∷ rest))) [] zn
          ((0 ∷ za) ++ (zm ++ (0 ∷ zb))) 0 hw eb (omega arith) refl en in
    let nul : store (word ++ ((0 ∷ za) ++ (zm ++ (0 ∷ zb)))) (0 + length word) 0
        ≡ some (pre ++ (zm ++ (0 ∷ zb))) =
      store_lem word (za ++ (zm ++ (0 ∷ zb))) 0 0 (0 + length word) (omega arith)
      ∙ ap some (sym (append_assoc word (0 ∷ za) (zm ++ (0 ∷ zb)))) in
    let second : copy_field ends_line 32 256 (text ++ (c ∷ rest)) (pre ++ (zm ++ (0 ∷ zb))) 0
        ≡ some (c ∷ rest, pre ++ (text ++ (0 ∷ zb)), 0 + length text) =
      copy_field_lem ends_line 32 256 text c rest pre zm (0 ∷ zb) 0 ht ec (omega arith)
        (omega (arith, lp)) em in
    let end : store (pre ++ (text ++ (0 ∷ zb))) (32 + (0 + length text)) 0
        ≡ some (pre ++ (text ++ (0 ∷ zb))) =
      ap (λ z. store z (32 + (0 + length text)) 0) (sym (append_assoc pre text (0 ∷ zb)))
      ∙ store_lem (pre ++ text) zb 0 0 (32 + (0 + length text))
          (omega (arith, lp, length-append pre text))
      ∙ ap some (append_assoc pre text (0 ∷ zb)) in
    rw (
      skip_blanks_lem bs x (w ++ r₂) hbs hx,
      first,
      nul,
      skip_blanks_lem (b ∷ bs₂) y (t ++ (c ∷ rest)) hb hy,
      second,
      end,
    )
