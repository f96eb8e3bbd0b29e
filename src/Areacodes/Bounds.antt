-- ===== src/Areacodes/Bounds.antt =====
-- That the search for an area code overruns no array (ci_areacodes.c).
use fritz2ci.Prelude.{
  ℕ, zero, suc, ◌-◌, ◌≤◌, ◌<◌, ◌≡◌, refl, Bool, true, false, not, ◌&&◌, ◌||◌, Bool-cases, inl, inr,
  Option, some, List, [], ◌∷◌, length, take, drop, length-drop, All, ltb, ◌==◌, if◌then◌else◌,
  arith,
}
use fritz2ci.Text.{Text}
use fritz2ci.Text.Facts.{strcpy_fits}
use fritz2ci.Numbers.{is_digit}
use fritz2ci.Areacodes.{
  Index, Area, digit_rank, char_at, unknown, lines_at, digits_matched, is_space, skip_spaces,
  to_line_end, write_match, search, number_index, search_from, look_up, get_area_code,
}

length-take : (i : ℕ) (t : Text) → length (take i t) ≤ length t
length-take zero t = omega arith
length-take (suc i) [] = omega arith
length-take (suc i) (c ∷ t) = omega (arith, length-take i t)

length-skip_spaces : (t : Text) → length (skip_spaces t) ≤ length t
unfolding skip_spaces
length-skip_spaces [] = omega arith
length-skip_spaces (c ∷ t) = elim (Bool-cases (is_space c)) [
  | inl e ↦ rw e (omega (arith, length-skip_spaces t))
  | inr e ↦ rw e (omega arith)
]

length-to_line_end : (t : Text) → length (to_line_end t) ≤ length t
unfolding to_line_end
length-to_line_end [] = omega arith
length-to_line_end (c ∷ t) = elim (Bool-cases ((c == 10) || (c == 0))) [
  | inl e ↦ rw e (omega arith)
  | inr e ↦ rw e (omega (arith, length-to_line_end t))
]

-- A result without a fault.
abbrev Returns : Option (Area × ℕ) → Type 0
Returns o = (r : Area × ℕ) × (o ≡ some r)

-- Lines of the size that fgets reads.
abbrev pub Short : Text → Type 0
Short l = length l < 256

write_match-Returns :
    (i : ℕ) (l n : Text) (a : Area) → length n < 16 → Short l → Returns (write_match i l n a)
unfolding write_match
write_match-Returns i l n a h k =
    let e₁ = strcpy_fits 16 (take i n) (omega (arith, length-take i n)) in
    let e₂ = strcpy_fits 32 (drop i n) (omega (arith, length-drop i n)) in
    let e₃ = strcpy_fits 256 (to_line_end (skip_spaces (drop i l))) (
      omega (
        arith,
        length-to_line_end (skip_spaces (drop i l)),
        length-skip_spaces (drop i l),
        length-drop i l,
      )) in
    (
      (
        record { code = take i n; number = drop i n; area = to_line_end (skip_spaces (drop i l)) },
        0,
      ),
      rw (e₁, e₂, e₃) refl,
    )

search-Returns :
    (ls : List Text) (n : Text) (a : Area) → length n < 16 → All Short ls → Returns (search ls n a)
unfolding search
search-Returns [] n a h k = (_, refl)
search-Returns (l ∷ ls) n a h k =
    elim (Bool-cases
      (ltb 2 (digits_matched l n) && not (is_digit (char_at l (digits_matched l n))))) [
        | inl e ↦ rw e (write_match-Returns (digits_matched l n) l n a h k.0)
        | inr e ↦
            elim (Bool-cases (
              ltb (digit_rank (char_at n (digits_matched l n)))
                (digit_rank (char_at l (digits_matched l n))))) [
                  | inl e' ↦ rw (e, e') (_, refl)
                  | inr e' ↦ rw (e, e') (search-Returns ls n a h k.1)
                ]
      ]

lines_at-Short : (pos : ℕ) (ls : List Text) → All Short ls → All Short (lines_at pos ls)
unfolding lines_at
lines_at-Short pos [] k = tt
lines_at-Short pos (l ∷ ls) k = elim (Bool-cases (pos == 0)) [
  | inl e ↦ rw e k
  | inr e ↦ elim (Bool-cases (ltb pos (length l))) [
    | inl e' ↦ rw (e, e') (omega (arith, length-drop pos l, k.0), k.1)
    | inr e' ↦ rw (e, e') (lines_at-Short (pos - length l) ls k.1)
  ]
]

search_from-Returns :
    (behind : ℕ) (opened : Bool) (ix : Index) (ls : List Text) (n : Text) (a : Area)
    → length n < 16
    → All Short ls
    → Returns (search_from behind opened ix ls n a)
unfolding search_from
search_from-Returns behind opened ix ls n a h k =
    elim (Bool-cases (ltb 0 (number_index behind n) && (ix (number_index behind n) == 0))) [
      | inl e ↦ rw e (_, refl)
      | inr e ↦ rw e (by_file opened)
    ]
  where
    by_file :
        (b : Bool)
        → Returns (if b then search (lines_at (ix (number_index behind n)) ls) n a else some (a, 1))
    by_file true =
        search-Returns (lines_at (ix (number_index behind n)) ls) n a h
          (lines_at-Short (ix (number_index behind n)) ls k)
    by_file false = (_, refl)

-- For a number of at most 15 characters, and whatever lines of at most 255 the file has and whatever
-- the index holds, the search ends and returns with no array overrun.
pub get_area_code-returns :
    (behind : ℕ) (named opened : Bool) (ix : Index) (ls : List Text) (n : Text) (old : Area)
    → length n < 16
    → All Short ls
    → (r : Area × ℕ) × (get_area_code behind named opened ix ls n old ≡ some r)
unfolding get_area_code look_up
get_area_code-returns behind false opened ix ls n old h k = (_, refl)
get_area_code-returns behind true opened ix ls n old h k =
    let e = strcpy_fits 32 n (omega arith) in rw e (by_digit (is_digit (char_at n 0)))
  where
    by_digit :
        (b : Bool)
        → Returns (
            if b
            then search_from behind opened ix ls n
                (record { code = char_at n 0 ∷ drop 1 unknown; number = n; area = unknown })
            else some (record { code = unknown; number = n; area = unknown }, 1))
    by_digit true = search_from-Returns behind opened ix ls n _ h k
    by_digit false = (_, refl)
