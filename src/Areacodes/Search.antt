-- ===== src/Areacodes/Search.antt =====
-- What the search for an area code finds, and what it leaves (ci_areacodes.c).
use fritz2ci.Prelude.{
  ℕ, zero, suc, ◌≡◌, ◌⊎◌, refl, sym, ap, subst, ◌∙◌, Bool, true, false, not, ◌&&◌, Bool-cases, inl,
  inr, some, some-injective, List, [], ◌∷◌, ◌++◌, append_assoc, take, drop, take-append-drop, ltb,
  ◌==◌, ==_iff, if◌then◌else◌, >>=-eq-some, arith,
}
use fritz2ci.Text.{Text, strcpy}
use fritz2ci.Text.Facts.{strcpy_copies}
use fritz2ci.Numbers.{is_digit}
use fritz2ci.Areacodes.Lines.{At, lines_at_end, index-At}
use fritz2ci.Areacodes.{
  no_index, read_codes, Index, Area, digit_rank, char_at, unknown, lines_at, digits_matched,
  skip_spaces, to_line_end, write_match, search, number_index, search_from, look_up, get_area_code,
}

and_true : (a b : Bool) → (a && b) ≡ true → (a ≡ true) × (b ≡ true)
and_true true b h = (refl, h)
and_true false b h = cc

-- A digit is told by its rank.
rank_digit : (c d : ℕ) → is_digit c ≡ true → digit_rank c ≡ digit_rank d → c ≡ d
rank_digit c d h e = ground (arith, h, e)

-- The matched digits are those of the line.
matched_lem : (l n : Text) → take (digits_matched l n) n ≡ take (digits_matched l n) l
unfolding digits_matched
matched_lem [] n = refl
matched_lem (c ∷ l) [] = refl
matched_lem (c ∷ l) (d ∷ n) = elim (Bool-cases (is_digit c && (digit_rank c == digit_rank d))) [
  | inl e ↦
      (let (h, k) = and_true (is_digit c) _ e in
        let same : c ≡ d = rank_digit c d h ((==_iff (digit_rank c) (digit_rank d)).0 k) in
        rw e (λ i. sym same i ∷ matched_lem l n i))
  | inr e ↦ rw e refl
]

char_at-drop : (i : ℕ) (l : Text) → char_at (drop i l) 0 ≡ char_at l i
char_at-drop zero l = refl
char_at-drop (suc i) [] = refl
char_at-drop (suc i) (c ∷ l) = char_at-drop i l

-- What was found: a line, and the code in front of what follows it.
abbrev pub Found : List Text → Text → Area → Type 0
Found ls n r =
    (pre : List Text) × (post : List Text) × (rest : Text) × (ls ≡ pre ++ ((r.code ++ rest) ∷ post))
    × (r.code ++ r.number ≡ n)
    × (is_digit (char_at rest 0) ≡ false)
    × (r.area ≡ to_line_end (skip_spaces rest))

write_match-Found :
    (i : ℕ) (l : Text) (ls : List Text) (n : Text) (a : Area) (r : Area × ℕ)
    → take i n ≡ take i l
    → is_digit (char_at l i) ≡ false
    → write_match i l n a ≡ some r
    → Found (l ∷ ls) n r.0
unfolding write_match
write_match-Found i l ls n a r same h e =
    let (code, e₁, f₁) = >>=-eq-some (strcpy 16 (take i n)) _ e in
    let (number, e₂, f₂) = >>=-eq-some (strcpy 32 (drop i n)) _ f₁ in
    let (area, e₃, f₃) = >>=-eq-some (strcpy 256 (to_line_end (skip_spaces (drop i l)))) _ f₂ in
    let k₁ = strcpy_copies 16 (take i n) code e₁ in
    let k₂ = strcpy_copies 32 (drop i n) number e₂ in
    subst (λ (z : Area × ℕ). Found (l ∷ ls) n z.0) (some-injective _ r f₃)
      (
        [],
        ls,
        drop i l,
        ap (λ z. z ∷ ls) (sym (take-append-drop i l) ∙ ap (λ z. z ++ drop i l) (sym (k₁ ∙ same))),
        (λ j. k₁ j ++ k₂ j) ∙ take-append-drop i n,
        ap is_digit (char_at-drop i l) ∙ h,
        strcpy_copies 256 _ area e₃,
      )

-- More lines in front.
Found-before : (pre ls : List Text) (n : Text) (r : Area) → Found ls n r → Found (pre ++ ls) n r
Found-before pre ls n r (p, q, rest, e, f, g, h) =
    (pre ++ p, q, rest, ap (λ z. pre ++ z) e ∙ sym (append_assoc pre p _), f, g, h)

false_of_negation : (b : Bool) → not b ≡ true → b ≡ false
false_of_negation true h = cc
false_of_negation false h = refl

-- What a search in lines comes to: 0 and what was found, or 1, and it wrote nothing but the code.
abbrev pub Outcome : List Text → Text → Area → Area × ℕ → Type 0
Outcome ls n a r =
    ((r.1 ≡ 0) × Found ls n r.0)
    ⊎ ((r.1 ≡ 1)
        × (r.0.number ≡ a.number)
        × (r.0.area ≡ a.area)
        × ((r.0.code ≡ unknown) ⊎ (r.0.code ≡ a.code)))

Outcome-before :
    (pre ls : List Text) (n : Text) (a : Area) (r : Area × ℕ)
    → Outcome ls n a r
    → Outcome (pre ++ ls) n a r
Outcome-before pre ls n a r (inl (e, f)) = inl (e, Found-before pre ls n r.0 f)
Outcome-before pre ls n a r (inr g) = inr g

write_match-zero :
    (i : ℕ) (l n : Text) (a : Area) (r : Area × ℕ) → write_match i l n a ≡ some r → r.1 ≡ 0
unfolding write_match
write_match-zero i l n a r e =
    let (code, e₁, f₁) = >>=-eq-some (strcpy 16 (take i n)) _ e in
    let (number, e₂, f₂) = >>=-eq-some (strcpy 32 (drop i n)) _ f₁ in
    let (area, e₃, f₃) = >>=-eq-some (strcpy 256 (to_line_end (skip_spaces (drop i l)))) _ f₂ in
    ap (λ (z : Area × ℕ). z.1) (sym (some-injective _ r f₃))

given_up :
    (ls : List Text) (n : Text) (a : Area) (r : Area × ℕ)
    → some (record a { code = unknown }, 1) ≡ some r
    → Outcome ls n a r
given_up ls n a r e =
    subst (Outcome ls n a) (some-injective _ r e) (inr (refl, refl, refl, inl refl))

left_as_is :
    (ls : List Text) (n : Text) (a : Area) (r : Area × ℕ) → some (a, 1) ≡ some r → Outcome ls n a r
left_as_is ls n a r e =
    subst (Outcome ls n a) (some-injective _ r e) (inr (refl, refl, refl, inr refl))

search-Outcome :
    (ls : List Text) (n : Text) (a : Area) (r : Area × ℕ)
    → search ls n a ≡ some r
    → Outcome ls n a r
unfolding search
search-Outcome [] n a r e = left_as_is [] n a r e
search-Outcome (l ∷ ls) n a r e =
    elim (Bool-cases
      (ltb 2 (digits_matched l n) && not (is_digit (char_at l (digits_matched l n))))) [
        | inl h ↦
            (let (long, plain) = and_true _ _ h in
              let e' : write_match (digits_matched l n) l n a ≡ some r = rw h at e in
              inl (
                write_match-zero (digits_matched l n) l n a r e',
                write_match-Found (digits_matched l n) l ls n a r (matched_lem l n)
                    (false_of_negation _ plain) e',
              ))
        | inr h ↦
            elim (Bool-cases (
              ltb (digit_rank (char_at n (digits_matched l n)))
                (digit_rank (char_at l (digits_matched l n))))) [
                  | inl h' ↦ given_up (l ∷ ls) n a r (rw (h, h') at e)
                  | inr h' ↦
                      Outcome-before (l ∷ []) ls n a r (search-Outcome ls n a r (rw (h, h') at e))
                ]
      ]

search_from-Outcome :
    (behind : ℕ) (opened : Bool) (ix : Index) (ls : List Text) (n : Text) (a : Area) (r : Area × ℕ)
    → ((i : ℕ) → At ls (ix i))
    → search_from behind opened ix ls n a ≡ some r
    → Outcome ls n a r
unfolding search_from
search_from-Outcome behind opened ix ls n a r at_line e =
    elim (Bool-cases (ltb 0 (number_index behind n) && (ix (number_index behind n) == 0))) [
      | inl h ↦ given_up ls n a r (rw h at e)
      | inr h ↦ by_file opened (rw h at e)
    ]
  where
    by_file :
        (b : Bool)
        → (if b then search (lines_at (ix (number_index behind n)) ls) n a else some (a, 1))
          ≡ some r
        → Outcome ls n a r
    by_file true e =
        let (pre, post, h, z) = at_line (number_index behind n) in
        let (pre', k) = lines_at_end pre post in
        let k' : ls ≡ pre' ++ lines_at (ix (number_index behind n)) ls =
          subst (λ q. q ≡ pre' ++ lines_at (ix (number_index behind n)) q) (sym h)
            (k ∙ ap (λ p. pre' ++ lines_at p (pre ++ post)) z) in
        subst (λ z. Outcome z n a r) (sym k')
          (Outcome-before pre' _ n a r
            (search-Outcome (lines_at (ix (number_index behind n)) ls) n a r e))
    by_file false e = left_as_is ls n a r e

-- Whatever the file and the number, with the file's index or an empty one, and where a file name is
-- set: if no copy overruns its array, then either the result is 0, the code and the rest make up the number, the file has a line that begins with the code and no
-- further digit, and the area is what the line has behind, without the spaces in front; or the result
-- is 1, the rest is the whole number, the area is unknown, and the code is unknown, or unknown with its
-- first character overwritten by that of the number.
pub get_area_code-Outcome :
    (behind : ℕ) (opened : Bool) (ix : Index) (ls : List Text) (n : Text) (old : Area)
    (r : Area × ℕ)
    → (ix ≡ no_index) ⊎ (ix ≡ read_codes 0 ls no_index)
    → get_area_code behind true opened ix ls n old ≡ some r
    → ((r.1 ≡ 0) × Found ls n r.0)
      ⊎ ((r.1 ≡ 1)
          × (r.0.number ≡ n)
          × (r.0.area ≡ unknown)
          × ((r.0.code ≡ unknown) ⊎ (r.0.code ≡ char_at n 0 ∷ drop 1 unknown)))
unfolding get_area_code look_up
get_area_code-Outcome behind opened ix ls n old r made e =
    let (number, e₁, e₂) = >>=-eq-some (strcpy 32 n) _ e in
    by_digit (is_digit (char_at n 0)) number (strcpy_copies 32 n number e₁) e₂
  where
    by_digit :
        (b : Bool) (number : Text)
        → number ≡ n
        → (if b
            then search_from behind opened ix ls n
                (record { code = char_at n 0 ∷ drop 1 unknown; number = number; area = unknown })
            else some (record { code = unknown; number = number; area = unknown }, 1))
          ≡ some r
        → ((r.1 ≡ 0) × Found ls n r.0)
          ⊎ ((r.1 ≡ 1)
              × (r.0.number ≡ n)
              × (r.0.area ≡ unknown)
              × ((r.0.code ≡ unknown) ⊎ (r.0.code ≡ char_at n 0 ∷ drop 1 unknown)))
    by_digit true number k e =
        elim (search_from-Outcome behind opened ix ls n _ r (index-At ls ix made) e) [
          | inl f ↦ inl f
          | inr g ↦ inr (g.0, g.1 ∙ k, g.2, g.3)
        ]
    by_digit false number k e =
        subst
          (λ (z : Area × ℕ).
            ((z.1 ≡ 0) × Found ls n z.0)
            ⊎ ((z.1 ≡ 1)
                × (z.0.number ≡ n)
                × (z.0.area ≡ unknown)
                × ((z.0.code ≡ unknown) ⊎ (z.0.code ≡ char_at n 0 ∷ drop 1 unknown))))
          (some-injective _ r e) (inr (refl, k, refl, inl refl))
