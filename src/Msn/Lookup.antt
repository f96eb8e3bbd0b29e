-- ===== src/Msn/Lookup.antt =====
-- The aliases that are found for the numbers of a file (msn_lookup.c).
use fritz2ci.Prelude.{
  ℕ, zero, suc, ◌+◌, ◌-◌, ◌<◌, ◌≡◌, ◌≢◌, refl, ap, ◌∙◌, Bool, true, false, Bool-cases, inl, inr,
  Option, none, some, List, [], ◌∷◌, ◌++◌, append_assoc, append-nil, map, length, length-append,
  length-replicate, replicate, All, ◌==◌, if◌then◌else◌, ◌>>=◌, arith,
}
use fritz2ci.Text.{same}
use fritz2ci.Memory.{Bytes, advance}
use fritz2ci.Memory.Emits.{advance_lem}
use fritz2ci.Msn.{
  blank, ends_line, ends_word, read_fields, read_line, read_lines, reversed, read_file, same_string,
  string_of, lookup,
}
use fritz2ci.Msn.Lines.{entry_of, read_fields_lem}

-- A line: blanks, a number, blanks, an alias, and the end of the line.
pub record Line : Type 0 where
  pub indent : Bytes
  pub msn : Bytes
  pub gap : Bytes
  pub alias : Bytes
  pub tail : Bytes

abbrev pub line_bytes : Line → Bytes
line_bytes l = l.indent ++ (l.msn ++ (l.gap ++ (l.alias ++ l.tail)))

-- The first byte passes a test.
abbrev pub Starts : (ℕ → Bool) → Bool → Bytes → Type 0
Starts test v [] = ⊥
Starts test v (x ∷ xs) = test x ≡ v

-- The parts are what they are called, and the number and the alias fit their fields with a NUL.
pub record IsLine (l : Line) : Type 0 where
  pub indent : All (λ b. blank b ≡ true) l.indent
  pub msn : All (λ x. ends_word x ≡ false) l.msn
  pub msn_start : Starts blank false l.msn
  pub msn_size : length l.msn < 32
  pub gap : All (λ b. blank b ≡ true) l.gap
  pub gap_start : Starts ends_word true l.gap
  pub alias : All (λ x. ends_line x ≡ false) l.alias
  pub alias_start : Starts blank false l.alias
  pub alias_size : length l.alias < 256
  pub tail : Starts ends_line true l.tail
  pub no_nul : All (λ x. x ≢ 0) l.msn

abbrev pub entry : Line → Bytes
entry l =
    entry_of l.msn (replicate (31 - length l.msn) 0) l.alias (replicate (255 - length l.alias) 0)

replicate-add : (i k x : ℕ) → replicate (i + k) x ≡ replicate i x ++ replicate k x
replicate-add zero k x = let z : 0 + k ≡ k = omega arith in rw z
replicate-add (suc i) k x =
    let z : suc i + k ≡ suc (i + k) = omega arith in rw z (ap (◌∷◌ x) (replicate-add i k x))

zero_entry :
    (n m a b : ℕ)
    → n + suc a ≡ 32
    → m + suc b ≡ 256
    → replicate 288 0 ≡ entry_of (replicate n 0) (replicate a 0) (replicate m 0) (replicate b 0)
zero_entry n m a b e e' =
    let total : 288 ≡ (n + suc a) + (m + suc b) = omega arith in
    ap (λ k. replicate k 0) total
    ∙ replicate-add (n + suc a) (m + suc b) 0
    ∙ (λ i. replicate-add n (suc a) 0 i ++ replicate-add m (suc b) 0 i)

zeroed :
    (buffer : Bytes) → read_line buffer (replicate 288 0) ≡ read_fields buffer (replicate 288 0)
unfolding read_line
zeroed buffer = refl

fields_of :
    (i w g t e : Bytes)
    → IsLine (record { indent = i; msn = w; gap = g; alias = t; tail = e })
    → read_line (i ++ (w ++ (g ++ (t ++ e)))) (replicate 288 0)
      ≡ some (entry_of w (replicate (31 - length w) 0) t (replicate (255 - length t) 0))
fields_of i [] g t e v = elim v.msn_start [ ]
fields_of i (x ∷ w) [] t e v = elim v.gap_start [ ]
fields_of i (x ∷ w) (b ∷ g) [] e v = elim v.alias_start [ ]
fields_of i (x ∷ w) (b ∷ g) (y ∷ t) [] v = elim v.tail [ ]
fields_of i (x ∷ w) (b ∷ g) (y ∷ t) (c ∷ e) v =
    let n : ℕ = length (x ∷ w) in
    let m : ℕ = length (y ∷ t) in
    let buffer : Bytes = i ++ ((x ∷ w) ++ ((b ∷ g) ++ ((y ∷ t) ++ (c ∷ e)))) in
    zeroed buffer
    ∙ ap (read_fields buffer) (
        zero_entry n m (31 - n) (255 - m) (omega (arith, v.msn_size)) (omega (arith, v.alias_size)))
    ∙ read_fields_lem i x w b g y t c e (replicate n 0) (replicate (31 - n) 0) (replicate m 0)
        (replicate (255 - m) 0) v.indent v.msn_start v.msn v.gap v.gap_start v.alias_start v.alias
        v.tail (omega (arith, v.msn_size, length-replicate {A = ℕ} (31 - n) 0)) v.alias_size
        (length-replicate {A = ℕ} n 0) (length-replicate {A = ℕ} m 0)

read_lines_lem :
    (ls : List Line) (entries : List Bytes)
    → All IsLine ls
    → read_lines (map line_bytes ls) entries ≡ some (reversed (map entry ls) entries)
unfolding read_lines
read_lines_lem [] entries v = refl
read_lines_lem (l ∷ ls) entries (v, vs) =
    rw (fields_of l.indent l.msn l.gap l.alias l.tail v) (read_lines_lem ls (entry l ∷ entries) vs)

reversed-reversed : (xs ys zs : List Bytes) → reversed (reversed xs ys) zs ≡ reversed ys (xs ++ zs)
reversed-reversed [] ys zs = refl
reversed-reversed (x ∷ xs) ys zs = reversed-reversed xs (x ∷ ys) zs

same_string_lem :
    (a b post post' : Bytes)
    → All (λ x. x ≢ 0) a
    → All (λ x. x ≢ 0) b
    → same_string (a ++ (0 ∷ post)) (b ++ (0 ∷ post')) ≡ some (same a b)
unfolding same_string
same_string_lem [] [] post post' ha hb = refl
same_string_lem [] (y ∷ b) post post' ha (hy, hb) = let e : (0 == y) ≡ false = ground arith in rw e
same_string_lem (x ∷ a) [] post post' (hx, ha) hb = let e : (x == 0) ≡ false = ground arith in rw e
same_string_lem (x ∷ a) (y ∷ b) post post' (hx, ha) (hy, hb) =
    let z : (x == 0) ≡ false = ground arith in
    let ih = same_string_lem a b post post' ha hb in
    elim (Bool-cases (x == y)) [ inl e ↦ rw (e, z, ih) | inr e ↦ rw e ]

string_of_lem :
    (t post : Bytes) → All (λ x. ends_line x ≡ false) t → string_of (t ++ (0 ∷ post)) ≡ some t
unfolding string_of
string_of_lem [] post h = refl
string_of_lem (x ∷ t) post (h, hs) =
    let e : (x == 0) ≡ false = ground arith in rw (e, string_of_lem t post hs)

-- The first line with the number: what is copied to the caller.
abbrev pub found : List Line → Bytes → Option Bytes × ℕ
found [] msn = (none, 1)
found (l ∷ ls) msn = if same l.msn msn then (some l.alias, 0) else found ls msn

lookup_lem :
    (ls : List Line) (msn post : Bytes)
    → All IsLine ls
    → All (λ x. x ≢ 0) msn
    → lookup (map entry ls) (msn ++ (0 ∷ post)) ≡ some (found ls msn)
unfolding lookup
lookup_lem [] msn post v h = refl
lookup_lem (l ∷ ls) msn post (v, vs) h =
    let za : Bytes = replicate (31 - length l.msn) 0 in
    let behind : Bytes = l.alias ++ (0 ∷ replicate (255 - length l.alias) 0) in
    let test : same_string (entry l) (msn ++ (0 ∷ post)) ≡ some (same l.msn msn) =
      ap (λ z. same_string z (msn ++ (0 ∷ post))) (append_assoc l.msn (0 ∷ za) behind)
      ∙ same_string_lem l.msn msn (za ++ behind) post v.no_nul h in
    let copied : advance 32 (entry l) ≡ some behind = advance_lem (l.msn ++ (0 ∷ za)) behind 32 (
      omega (
        arith,
        v.msn_size,
        length-append l.msn (0 ∷ za),
        length-replicate {A = ℕ} (31 - length l.msn) 0,
      )) in
    let ih = lookup_lem ls msn post vs h in
    elim (Bool-cases (same l.msn msn)) [
      | inl e ↦
          rw (test, e, copied, string_of_lem l.alias (replicate (255 - length l.alias) 0) v.alias)
      | inr e ↦ rw (test, e, ih)
    ]

-- A file of lines, each with a number below 32 bytes and an alias below 256 bytes, is read with no
-- access out of bounds, and a number is then looked up as in the lines themselves: the first line
-- with the number gives its alias and 0, and without one the result is 1.
pub lookup-read_file :
    (ls : List Line) (msn post : Bytes)
    → All IsLine ls
    → All (λ x. x ≢ 0) msn
    → (read_file (map line_bytes ls) >>= λ entries. lookup entries (msn ++ (0 ∷ post)))
      ≡ some (found ls msn)
unfolding read_file
lookup-read_file ls msn post v h =
    let ordered : reversed (reversed (map entry ls) []) [] ≡ map entry ls =
      reversed-reversed (map entry ls) [] [] ∙ append-nil (map entry ls) in
    rw (read_lines_lem ls [] v) (rw (ordered, lookup_lem ls msn post v h))
