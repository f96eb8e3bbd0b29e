-- ===== src/Areacodes/Lines.antt =====
-- Where the index leads in the file (ci_areacodes.c).
use fritz2ci.Prelude.{
  ℕ, ◌+◌, ◌-◌, ◌<◌, ◌≡◌, ◌≢◌, refl, sym, ap, ◌∙◌, Bool, true, false, ◌&&◌, Bool-cases, inl, inr,
  List, [], ◌∷◌, ◌++◌, append_assoc, subst, ◌⊎◌, length, ltb, All, ◌==◌, ==_iff, arith,
}
use fritz2ci.Text.{Text}
use fritz2ci.Areacodes.{Index, no_index, has_code, line_index, enter_line, read_codes, lines_at}

-- A position that is set stays.
enter_line_keeps :
    (pos : ℕ) (l : Text) (ix : Index) (i : ℕ) → ix i ≢ 0 → enter_line pos l ix i ≡ ix i
unfolding enter_line
enter_line_keeps pos l ix i h = elim (Bool-cases (has_code l && (ix (line_index l) == 0))) [
  | inl e ↦ rw e (elim (Bool-cases (i == line_index l)) [
    | inl k ↦
        absurd (h (ap ix ((==_iff i (line_index l)).0 k) ∙ is_zero (has_code l) (line_index l) e))
    | inr k ↦ rw k refl
  ])
  | inr e ↦ rw e refl
]
  where
    is_zero : (b : Bool) (j : ℕ) → (b && (ix j == 0)) ≡ true → ix j ≡ 0
    is_zero true j e = (==_iff (ix j) 0).0 e
    is_zero false j e = cc

read_codes_keeps :
    (ls : List Text) (pos : ℕ) (ix : Index) (i : ℕ) → ix i ≢ 0 → read_codes pos ls ix i ≡ ix i
unfolding read_codes
read_codes_keeps [] pos ix i h = refl
read_codes_keeps (l ∷ ls) pos ix i h =
    let k = enter_line_keeps pos l ix i h in
    read_codes_keeps ls (pos + length l) (enter_line pos l ix) i (λ z. h (sym k ∙ z)) ∙ k

-- A line that is the first of its index behind the start of the file.
enter_line_sets :
    (pos : ℕ) (l : Text) (ix : Index)
    → has_code l ≡ true
    → ix (line_index l) ≡ 0
    → enter_line pos l ix (line_index l) ≡ pos
unfolding enter_line
enter_line_sets pos l ix h e =
    let z : (ix (line_index l) == 0) ≡ true = (==_iff _ 0).1 e in
    let s : (line_index l == line_index l) ≡ true = (==_iff _ _).1 refl in rw (h, z, s) refl

-- The lines up to one, none of which has its index.
abbrev pub Others : ℕ → List Text → Type 0
Others i ls = All (λ (l : Text). line_index l ≢ i) ls

abbrev pub size : List Text → ℕ
size [] = 0
size (l ∷ ls) = length l + size ls

enter_line_other :
    (pos : ℕ) (l : Text) (ix : Index) (i : ℕ) → line_index l ≢ i → enter_line pos l ix i ≡ ix i
unfolding enter_line
enter_line_other pos l ix i h = elim (Bool-cases (has_code l && (ix (line_index l) == 0))) [
  | inl e ↦ (let k : (i == line_index l) ≡ false = ground (arith, h) in rw (e, k) refl)
  | inr e ↦ rw e refl
]

read_codes_first :
    (pre : List Text) (pos : ℕ) (l : Text) (post : List Text) (ix : Index)
    → Others (line_index l) pre
    → has_code l ≡ true
    → ix (line_index l) ≡ 0
    → pos + size pre ≢ 0
    → read_codes pos (pre ++ (l ∷ post)) ix (line_index l) ≡ pos + size pre
unfolding read_codes
read_codes_first [] pos l post ix o h e n =
    let k = enter_line_sets pos l ix h e in
    read_codes_keeps post (pos + length l) (enter_line pos l ix) (line_index l)
      (λ z. n (omega (arith, k, z)))
    ∙ k
    ∙ omega arith
read_codes_first (x ∷ pre) pos l post ix o h e n =
    read_codes_first pre (pos + length x) l post (enter_line pos x ix) o.1 h
      (enter_line_other pos x ix (line_index l) o.0 ∙ e) (λ z. n (omega (arith, z)))
    ∙ omega arith

-- Lines that are not empty are left behind.
lines_at_behind :
    (pre ls : List Text)
    → All (λ (l : Text). 0 < length l) pre
    → lines_at (size pre) (pre ++ ls) ≡ lines_at 0 ls
unfolding lines_at
lines_at_behind [] ls h = refl
lines_at_behind (x ∷ pre) ls h =
    let e : (length x + size pre == 0) ≡ false = ground (arith, h.0) in
    let e' : ltb (length x + size pre) (length x) ≡ false = ground arith in
    let k : length x + size pre - length x ≡ size pre = omega arith in
    rw (e, e', k) (lines_at_behind pre ls h.1)

pub lines_at_start : (ls : List Text) → lines_at 0 ls ≡ ls
unfolding lines_at
lines_at_start [] = refl
lines_at_start (l ∷ ls) = refl

-- The line at the start of the file sets nothing.
enter_line_zero : (l : Text) (i : ℕ) → enter_line 0 l no_index i ≡ 0
unfolding enter_line
enter_line_zero l i = elim (Bool-cases (has_code l && true)) [
  | inl e ↦ rw e (elim (Bool-cases (i == line_index l)) [ inl k ↦ rw k refl | inr k ↦ rw k refl ])
  | inr e ↦ rw e refl
]

-- A position where a line begins, or the end.
abbrev pub At : List Text → ℕ → Type 0
At ls pos = (pre : List Text) × (post : List Text) × (ls ≡ pre ++ post) × (size pre ≡ pos)

-- The lines behind such a position are the last of the file.
pub lines_at_end :
    (pre post : List Text)
    → (pre' : List Text) × (pre ++ post ≡ pre' ++ lines_at (size pre) (pre ++ post))
unfolding lines_at
lines_at_end [] post = ([], sym (lines_at_start post))
lines_at_end (x ∷ pre) post = elim (Bool-cases (length x + size pre == 0)) [
  | inl e ↦ ([], rw e refl)
  | inr e ↦
      (let e' : ltb (length x + size pre) (length x) ≡ false = ground arith in
        let k : length x + size pre - length x ≡ size pre = omega arith in
        let (pre', h) = lines_at_end pre post in (x ∷ pre', rw (e, e', k) (ap (λ z. x ∷ z) h)))
]

enter_line-At :
    (whole : List Text) (pos : ℕ) (l : Text) (ix : Index)
    → At whole pos
    → ((i : ℕ) → At whole (ix i))
    → (i : ℕ) → At whole (enter_line pos l ix i)
unfolding enter_line
enter_line-At whole pos l ix h k i = elim (Bool-cases (has_code l && (ix (line_index l) == 0))) [
  | inl e ↦ rw e (elim (Bool-cases (i == line_index l)) [ inl q ↦ rw q h | inr q ↦ rw q (k i) ])
  | inr e ↦ rw e (k i)
]

size-append : (pre : List Text) (l : Text) → size (pre ++ (l ∷ [])) ≡ size pre + length l
size-append [] l = omega arith
size-append (x ∷ pre) l = omega (arith, size-append pre l)

read_codes-At :
    (pre ls : List Text) (ix : Index)
    → ((i : ℕ) → At (pre ++ ls) (ix i))
    → (i : ℕ) → At (pre ++ ls) (read_codes (size pre) ls ix i)
unfolding read_codes
read_codes-At pre [] ix k i = k i
read_codes-At pre (l ∷ ls) ix k i =
    let next : (pre ++ (l ∷ [])) ++ ls ≡ pre ++ (l ∷ ls) = append_assoc pre (l ∷ []) ls in
    subst (λ z. At z (read_codes (size pre + length l) ls (enter_line (size pre) l ix) i)) next
      (subst (λ z. At ((pre ++ (l ∷ [])) ++ ls) (read_codes z ls (enter_line (size pre) l ix) i))
        (size-append pre l)
        (read_codes-At (pre ++ (l ∷ [])) ls (enter_line (size pre) l ix)
          (λ j.
            subst (λ z. At z (enter_line (size pre) l ix j)) (sym next)
              (enter_line-At (pre ++ (l ∷ ls)) (size pre) l ix (pre, l ∷ ls, refl, refl) k j))
          i))

-- Every position of an index is where a line of the file begins, if the index is empty or read from
-- the file.
pub index-At :
    (ls : List Text) (ix : Index)
    → (ix ≡ no_index) ⊎ (ix ≡ read_codes 0 ls no_index)
    → (i : ℕ) → At ls (ix i)
index-At ls ix (inl e) i = ([], ls, refl, sym (ap (λ (f : Index). f i) e))
index-At ls ix (inr e) i =
    subst (λ (f : Index). At ls (f i)) (sym e)
      (read_codes-At [] ls no_index (λ j. ([], ls, refl, refl)) i)

-- The index of a file leads to the first line, behind the first of the file, that has a code with its
-- two digits, if no line is empty and only the first line of the file, of those before, may have these
-- digits too: the search for them starts at that line, so that the first line of the file is left
-- out if it has the same digits.
pub read_codes-lines_at :
    (first : Text) (pre : List Text) (l : Text) (post : List Text)
    → has_code l ≡ true
    → Others (line_index l) pre
    → All (λ (z : Text). 0 < length z) (first ∷ pre)
    → lines_at
        (read_codes 0 (first ∷ (pre ++ (l ∷ post))) no_index (line_index l))
        (first ∷ (pre ++ (l ∷ post)))
      ≡ l ∷ post
unfolding read_codes
read_codes-lines_at first pre l post h o nonempty =
    let unset : enter_line 0 first no_index (line_index l) ≡ 0 =
      enter_line_zero first (line_index l) in
    let k : read_codes 0 (first ∷ (pre ++ (l ∷ post))) no_index (line_index l)
        ≡ length first + size pre =
      read_codes_first pre (0 + length first) l post (enter_line 0 first no_index) o h unset
        (λ z. omega (arith, nonempty.0, z))
      ∙ omega arith in
    ap (λ p. lines_at p (first ∷ (pre ++ (l ∷ post)))) k
    ∙ lines_at_behind (first ∷ pre) (l ∷ post) nonempty
    ∙ lines_at_start (l ∷ post)
