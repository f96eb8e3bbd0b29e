-- ===== src/Lookup/Escapes/Decode.antt =====
-- What the removal of escapes means, and that the loop does it in place (lookup.c).
use fritz2ci.Prelude.{
  ℕ, zero, suc, ◌+◌, ◌<◌, ◌≡◌, ◌≢◌, refl, sym, ap, subst, ◌∙◌, Bool, true, false, ◌&&◌, Bool-cases,
  inl, inr, Option, some, [], ◌∷◌, ◌++◌, append_assoc, length, length-append, get_elem?-append, All,
  ltb, ◌==◌, ==_iff, if◌then◌else◌, ◌>>=◌, arith,
}
use fritz2ci.Memory.{Bytes, load, store}
use fritz2ci.Memory.Emits.{store_lem}
use fritz2ci.Text.{Text}
use fritz2ci.Lookup.Escapes.{escaped, move, remove_one, remove_loop, remove_escapes}

-- Whether a text begins with an escaped space.
abbrev pub starts_space : Text → Bool
starts_space (c ∷ c₁ ∷ c₂ ∷ t) = (c == b'%') && ((c₁ == b'2') && (c₂ == b'0'))
starts_space _ = false

-- The text with spaces for their escapes, behind a number of characters that are dropped.
abbrev pub decode_from : ℕ → Text → Text
decode_from k [] = []
decode_from (suc k) (c ∷ t) = decode_from k t
decode_from zero (c ∷ t) =
    let after = decode_from 2 t in
    let next = decode_from 0 t in if starts_space (c ∷ t) then 32 ∷ after else c ∷ next

abbrev pub decode : Text → Text
decode t = decode_from 0 t

abbrev pub Printable : Text → Type 0
Printable t = All (λ c. c ≢ 0) t

load_at : (u : Bytes) (c : ℕ) (r : Bytes) → load (u ++ (c ∷ r)) (length u) ≡ some c
unfolding load
load_at u c r = get_elem?-append u c r

load_past :
    (u : Bytes) (v : Bytes) (c : ℕ) (r : Bytes)
    → load (u ++ (v ++ (c ∷ r))) (length u + length v) ≡ some c
load_past u v c r =
    sym (λ i. load (append_assoc u v (c ∷ r) i) (length-append u v i)) ∙ load_at (u ++ v) c r

store_at :
    (u : Bytes) (c v : ℕ) (r : Bytes) → store (u ++ (c ∷ r)) (length u) v ≡ some (u ++ (v ∷ r))
store_at u c v r = store_lem u r c v (length u) refl

escaped_at :
    (u : Bytes) (c : ℕ) (t tail : Bytes)
    → escaped (u ++ (c ∷ (t ++ (0 ∷ tail)))) (length u) ≡ some (starts_space (c ∷ t))
unfolding escaped
escaped_at u c t tail = rw (load_at u c (t ++ (0 ∷ tail))) (at_first t)
  where
    second :
        (t : Bytes) (c₁ : ℕ) (h : (c == b'%') ≡ true)
        → (e : (c₁ == b'2') ≡ true)
        → (do c₂ ← load (u ++ (c ∷ c₁ ∷ (t ++ (0 ∷ tail)))) (length u + 2); some (c₂ == b'0'))
          ≡ some (starts_space (c ∷ c₁ ∷ t))
    second [] c₁ h e = rw (load_past u (c ∷ c₁ ∷ []) 0 tail) refl
    second (c₂ ∷ t) c₁ h e = rw (load_past u (c ∷ c₁ ∷ []) c₂ (t ++ (0 ∷ tail)), h, e) refl

    first :
        (t : Bytes)
        → (h : (c == b'%') ≡ true)
        → (do
          c₁ ← load (u ++ (c ∷ (t ++ (0 ∷ tail)))) (length u + 1)
          if c₁ == b'2'
              then (do c₂ ← load (u ++ (c ∷ (t ++ (0 ∷ tail)))) (length u + 2); some (c₂ == b'0'))
              else some false)
          ≡ some (starts_space (c ∷ t))
    first [] h = rw (load_past u (c ∷ []) 0 tail) refl
    first (c₁ ∷ t) h = elim (Bool-cases (c₁ == b'2')) [
      | inl e ↦ rw (load_past u (c ∷ []) c₁ (t ++ (0 ∷ tail)), e) (second t c₁ h e)
      | inr e ↦ rw (load_past u (c ∷ []) c₁ (t ++ (0 ∷ tail)), e) (rest t e)
    ]
      where
        rest : (t : Bytes) → (c₁ == b'2') ≡ false → some false ≡ some (starts_space (c ∷ c₁ ∷ t))
        rest [] e = refl
        rest (c₂ ∷ t) e = rw (h, e) refl

    at_first :
        (t : Bytes)
        → (if c == b'%'
            then (do
              c₁ ← load (u ++ (c ∷ (t ++ (0 ∷ tail)))) (length u + 1)
              if c₁ == b'2'
                  then (do
                    c₂ ← load (u ++ (c ∷ (t ++ (0 ∷ tail)))) (length u + 2)
                    some (c₂ == b'0'))
                  else some false)
            else some false)
          ≡ some (starts_space (c ∷ t))
    at_first t = elim (Bool-cases (c == b'%')) [
      | inl h ↦ rw h (first t h)
      | inr h ↦ rw h (plain t h)
    ]
      where
        plain : (t : Bytes) → (c == b'%') ≡ false → some false ≡ some (starts_space (c ∷ t))
        plain [] h = refl
        plain (c₁ ∷ []) h = refl
        plain (c₁ ∷ c₂ ∷ t) h = rw h refl

-- The written part, a gap, and what is still to be read.
abbrev zipped : Bytes → Bytes → Bytes → Bytes
zipped w g r = w ++ (g ++ r)

escaped_in :
    (w g : Bytes) (c : ℕ) (t tail : Bytes)
    → escaped (zipped w g (c ∷ (t ++ (0 ∷ tail)))) (length w + length g)
      ≡ some (starts_space (c ∷ t))
escaped_in w g c t tail =
    sym (λ i. escaped (append_assoc w g (c ∷ (t ++ (0 ∷ tail))) i) (length-append w g i))
    ∙ escaped_at (w ++ g) c t tail

-- A character that is moved takes one from the gap and leaves one.
move_in :
    (w g : Bytes) (c : ℕ) (r : Bytes)
    → (g' : Bytes) × (length g' ≡ length g)
      × (move (length w) (length g) (zipped w g (c ∷ r)) ≡ some (zipped (w ++ (c ∷ [])) g' r))
unfolding move
move_in w [] c r = ([], refl, ap some (sym (append_assoc w (c ∷ []) r)))
move_in w (x ∷ g) c r = (
  g ++ (c ∷ []),
  length-append g (c ∷ []) ∙ omega arith,
  (let e : load (zipped w (x ∷ g) (c ∷ r)) (length w + length (x ∷ g)) ≡ some c =
        load_past w (x ∷ g) c r in
      let more : ltb 0 (length (x ∷ g)) ≡ true = ground arith in
      rw (more, e) (store_at w x c (g ++ (c ∷ r)) ∙ ap some (zip_again g))),
)
  where
    zip_again : (g : Bytes) → w ++ (c ∷ (g ++ (c ∷ r))) ≡ zipped (w ++ (c ∷ [])) (g ++ (c ∷ [])) r
    zip_again g =
        ap (λ z. w ++ (c ∷ z)) (sym (append_assoc g (c ∷ []) r))
        ∙ sym (append_assoc w (c ∷ []) ((g ++ (c ∷ [])) ++ r))

-- A space in place of the first of three characters: the gap grows by two.
space_in :
    (w g : Bytes) (c c₁ c₂ : ℕ) (r : Bytes)
    → (g' : Bytes) × (length g' ≡ length g + 2)
      × (store (zipped w g (c ∷ c₁ ∷ c₂ ∷ r)) (length w) 32 ≡ some (zipped (w ++ (32 ∷ [])) g' r))
space_in w [] c c₁ c₂ r = (
  c₁ ∷ c₂ ∷ [],
  refl,
  store_at w c 32 (c₁ ∷ c₂ ∷ r) ∙ ap some (sym (append_assoc w (32 ∷ []) (c₁ ∷ c₂ ∷ r))),
)
space_in w (x ∷ g) c c₁ c₂ r = (
  g ++ (c ∷ c₁ ∷ c₂ ∷ []),
  length-append g (c ∷ c₁ ∷ c₂ ∷ []) ∙ omega arith,
  store_at w x 32 (g ++ (c ∷ c₁ ∷ c₂ ∷ r)) ∙ ap some (zip_again g),
)
  where
    zip_again :
        (g : Bytes)
        → w ++ (32 ∷ (g ++ (c ∷ c₁ ∷ c₂ ∷ r))) ≡ zipped (w ++ (32 ∷ [])) (g ++ (c ∷ c₁ ∷ c₂ ∷ [])) r
    zip_again g =
        ap (λ z. w ++ (32 ∷ z)) (sym (append_assoc g (c ∷ c₁ ∷ c₂ ∷ []) r))
        ∙ sym (append_assoc w (32 ∷ []) ((g ++ (c ∷ c₁ ∷ c₂ ∷ [])) ++ r))

-- The loop ends well from a zipped string.
abbrev Removes : ℕ → Bytes → Bytes → Text → Bytes → Type 0
Removes n w g t tail =
    (rest : Bytes) × (remove_loop n (length w) (length g) (zipped w g (t ++ (0 ∷ tail)))
      ≡ some (w ++ (decode t ++ (0 ∷ rest))))

at_end :
    (w g tail : Bytes)
    → (rest : Bytes) × (store (zipped w g (0 ∷ tail)) (length w) 0 ≡ some (w ++ (0 ∷ rest)))
at_end w [] tail = (tail, store_at w 0 0 tail)
at_end w (x ∷ g) tail = (g ++ (0 ∷ tail), store_at w x 0 (g ++ (0 ∷ tail)))

-- One more character behind the written part.
shift_result :
    (w : Bytes) (c : ℕ) (d : Text) (rest : Bytes)
    → (w ++ (c ∷ [])) ++ (d ++ (0 ∷ rest)) ≡ w ++ ((c ∷ d) ++ (0 ∷ rest))
shift_result w c d rest = append_assoc w (c ∷ []) (d ++ (0 ∷ rest))

-- A round that does not end the loop.
round_lem :
    (n i d : ℕ) (str : Bytes) (c : ℕ)
    → load str (i + d) ≡ some c
    → (c == 0) ≡ false
    → remove_loop (suc n) i d str
      ≡ (do (d', str') ← remove_one i d str; remove_loop n (i + 1) d' str')
unfolding remove_loop
round_lem n i d str c e e' = ap (λ (o : Option ℕ). o >>= λ z. on_end (z == 0)) e ∙ ap on_end e'
  where
    on_end : Bool → Option Bytes
    on_end b = elim b [
      | true ↦ store str i 0
      | false ↦ (do (d', str') ← remove_one i d str; remove_loop n (i + 1) d' str')
    ]

-- The next round starts behind what was written.
next_round :
    (n d : ℕ) (w g' : Bytes) (c : ℕ) (t : Text) (tail out : Bytes)
    → length g' ≡ d
    → remove_loop n
        (length (w ++ (c ∷ [])))
        (length g')
        (zipped (w ++ (c ∷ [])) g' (t ++ (0 ∷ tail)))
      ≡ some out
    → remove_loop n (length w + 1) d (zipped (w ++ (c ∷ [])) g' (t ++ (0 ∷ tail))) ≡ some out
next_round n d w g' c t tail out k ih =
    sym (λ i.
      remove_loop n (length-append w (c ∷ []) i) (k i)
        (zipped (w ++ (c ∷ [])) g' (t ++ (0 ∷ tail))))
    ∙ ih

-- A text that begins with an escaped space.
space_view :
    (c : ℕ) (t : Text)
    → starts_space (c ∷ t) ≡ true
    → (c₁ : ℕ) × (c₂ : ℕ) × (t' : Text) × (t ≡ c₁ ∷ c₂ ∷ t')
space_view c [] e = cc
space_view c (c₁ ∷ []) e = cc
space_view c (c₁ ∷ c₂ ∷ t') e = (c₁, c₂, t', refl)

-- The rounds that replace a space, keep a character and end the string, given the rounds behind.
space_round :
    (n : ℕ) (w g : Bytes) (c c₁ c₂ : ℕ) (t : Text) (tail : Bytes)
    → (c == 0) ≡ false
    → starts_space (c ∷ c₁ ∷ c₂ ∷ t) ≡ true
    → ((g' : Bytes) → Removes n (w ++ (32 ∷ [])) g' t tail)
    → Removes (suc n) w g (c ∷ c₁ ∷ c₂ ∷ t) tail
unfolding remove_one
space_round n w g c c₁ c₂ t tail nonzero e next =
    let go =
      round_lem n (length w) (length g) (zipped w g ((c ∷ c₁ ∷ c₂ ∷ t) ++ (0 ∷ tail))) c
        (load_past w g c ((c₁ ∷ c₂ ∷ t) ++ (0 ∷ tail))) nonzero in
    let (g', k, m) = space_in w g c c₁ c₂ (t ++ (0 ∷ tail)) in
    let (rest, ih) = next g' in
    (
      rest,
      go
          ∙ rw (escaped_in w g c (c₁ ∷ c₂ ∷ t) tail, e, m)
              (next_round n (length g + 2) w g' 32 t tail _ k ih
                ∙ ap some (shift_result w 32 (decode t) rest)),
    )

plain_round :
    (n : ℕ) (w g : Bytes) (c : ℕ) (t : Text) (tail : Bytes)
    → (c == 0) ≡ false
    → starts_space (c ∷ t) ≡ false
    → ((g' : Bytes) → Removes n (w ++ (c ∷ [])) g' t tail)
    → Removes (suc n) w g (c ∷ t) tail
unfolding remove_one
plain_round n w g c t tail nonzero e next =
    let go =
      round_lem n (length w) (length g) (zipped w g ((c ∷ t) ++ (0 ∷ tail))) c
        (load_past w g c (t ++ (0 ∷ tail))) nonzero in
    let (g', k, m) = move_in w g c (t ++ (0 ∷ tail)) in
    let (rest, ih) = next g' in
    (
      rest,
      go
          ∙ rw (escaped_in w g c t tail, e, m)
              (next_round n (length g) w g' c t tail _ k ih
                ∙ ap some (shift_result w c (decode t) rest)),
    )

end_round : (n : ℕ) (w g tail : Bytes) → Removes (suc n) w g [] tail
unfolding remove_loop
end_round n w g tail = let (rest, e) = at_end w g tail in (rest, rw (load_past w g 0 tail) e)

remove_loop-decode :
    (n : ℕ) (w g : Bytes) (t : Text) (tail : Bytes)
    → length t < n
    → Printable t
    → Removes n w g t tail
remove_loop-decode zero w g t tail h p = absurd (omega arith)
remove_loop-decode (suc n) w g [] tail h p = end_round n w g tail
remove_loop-decode (suc n) w g (c ∷ t) tail h p =
    let nonzero : (c == 0) ≡ false = ground (arith, p.0) in
    elim (Bool-cases (starts_space (c ∷ t))) [
      | inl e ↦
          (let (c₁, c₂, t', v) = space_view c t e in
            let p' : Printable (c₁ ∷ c₂ ∷ t') = subst Printable v p.1 in
            let shorter : length t ≡ length t' + 2 = ap length v ∙ omega arith in
            subst (λ z. Removes (suc n) w g (c ∷ z) tail) (sym v)
              (space_round n w g c c₁ c₂ t' tail nonzero
                (subst (λ z. starts_space (c ∷ z) ≡ true) v e)
                (λ g'. remove_loop-decode n (w ++ (32 ∷ [])) g' t' tail (omega arith) p'.1.1)))
      | inr e ↦
          plain_round n w g c t tail nonzero e
            (λ g'. remove_loop-decode n (w ++ (c ∷ [])) g' t tail (omega arith) p.1)
    ]

-- On a string, with whatever stands behind its NUL, and with one round more than it has characters,
-- the loop ends with no access outside of the array, and leaves the text with each `%20`, from left to
-- right, turned to a space.
pub remove_escapes-decode :
    (t : Text) (tail : Bytes) (fuel : ℕ)
    → Printable t
    → length t < fuel
    → (rest : Bytes) × (remove_escapes fuel (t ++ (0 ∷ tail)) ≡ some (decode t ++ (0 ∷ rest)))
unfolding remove_escapes
remove_escapes-decode t tail fuel p h = remove_loop-decode fuel [] [] t tail h p

decode_from-Printable : (k : ℕ) (t : Text) → Printable t → Printable (decode_from k t)
decode_from-Printable k [] p = tt
decode_from-Printable (suc k) (c ∷ t) (p, ps) = decode_from-Printable k t ps
decode_from-Printable zero (c ∷ t) (p, ps) = elim (Bool-cases (starts_space (c ∷ t))) [
  | inl e ↦ rw e (omega arith, decode_from-Printable 2 t ps)
  | inr e ↦ rw e (p, decode_from-Printable 0 t ps)
]

pub decode-Printable : (t : Text) → Printable t → Printable (decode t)
decode-Printable t p = decode_from-Printable 0 t p

-- A text whose spaces are escaped.
abbrev pub encode : Text → Text
encode [] = []
encode (c ∷ t) = let rest = encode t in if c == 32 then b'%' ∷ b'2' ∷ b'0' ∷ rest else c ∷ rest

-- No NUL and no percent sign.
abbrev pub Unescaped : Text → Type 0
Unescaped t = All (λ c. (c ≢ 0) × (c ≢ b'%')) t

decode-encode : (t : Text) → Unescaped t → decode (encode t) ≡ t
decode-encode [] p = refl
decode-encode (c ∷ t) p = elim (Bool-cases (c == 32)) [
  | inl e ↦ rw e (λ i. sym ((==_iff c 32).0 e) i ∷ decode-encode t p.1 i)
  | inr e ↦ rw e (kept c (encode t) t p.0.1 (decode-encode t p.1))
]
  where
    kept : (c : ℕ) (u t : Text) → c ≢ b'%' → decode u ≡ t → decode (c ∷ u) ≡ c ∷ t
    kept c [] t n e = ap (λ z. c ∷ z) e
    kept c (c₁ ∷ []) t n e = ap (λ z. c ∷ z) e
    kept c (c₁ ∷ c₂ ∷ u) t n e =
        let k : (c == b'%') ≡ false = ground (arith, n) in rw k (ap (λ z. c ∷ z) e)

encode-Printable : (t : Text) → Unescaped t → Printable (encode t)
encode-Printable [] p = tt
encode-Printable (c ∷ t) p = elim (Bool-cases (c == 32)) [
  | inl e ↦ rw e (ground arith, (ground arith, (ground arith, encode-Printable t p.1)))
  | inr e ↦ rw e (p.0.0, encode-Printable t p.1)
]

-- A text with no percent sign, with its spaces escaped, comes back: the loop leaves the text and its
-- NUL, if it has a round for each character and one more.
pub remove_escapes-encode :
    (t : Text) (tail : Bytes) (fuel : ℕ)
    → Unescaped t
    → length (encode t) < fuel
    → (rest : Bytes) × (remove_escapes fuel (encode t ++ (0 ∷ tail)) ≡ some (t ++ (0 ∷ rest)))
remove_escapes-encode t tail fuel p h =
    let (rest, e) = remove_escapes-decode (encode t) tail fuel (encode-Printable t p) h in
    (rest, e ∙ ap (λ z. some (z ++ (0 ∷ rest))) (decode-encode t p))
