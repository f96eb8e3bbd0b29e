-- ===== src/Lookup/Escapes/Bounds.antt =====
-- That the removal of escapes makes no text longer (lookup.c).
use fritz2ci.Prelude.{
  ℕ, zero, suc, ◌+◌, ◌<◌, ◌≡◌, sym, ap, subst, ◌∙◌, Bool, true, false, Bool-cases, inl, inr, Option,
  some, some-injective, [], ◌∷◌, length, ltb, ◌==◌, if◌then◌else◌, ◌>>=◌, >>=-eq-some, arith,
}
use fritz2ci.Memory.{Bytes, load, store}
use fritz2ci.Text.{text_of}
use fritz2ci.Lookup.Escapes.{escaped, move, remove_one, remove_loop, remove_escapes}

store-length : (r : Bytes) (i v : ℕ) (r' : Bytes) → store r i v ≡ some r' → length r' ≡ length r
unfolding store
store-length [] i v r' e = cc
store-length (x ∷ r) zero v r' e = ap length (sym (some-injective (v ∷ r) r' e))
store-length (x ∷ r) (suc i) v r' e =
    let (q, e₁, e₂) = >>=-eq-some (store r i v) _ e in
    ap length (sym (some-injective (x ∷ q) r' e₂)) ∙ ap suc (store-length r i v q e₁)

-- A NUL that is written ends the text within the array.
store-nul :
    (r : Bytes) (i : ℕ) (r' : Bytes) → store r i 0 ≡ some r' → length (text_of r') < length r
unfolding store
store-nul [] i r' e = cc
store-nul (x ∷ r) zero r' e =
    let k : 0 ≡ length (text_of r') = ap (λ z. length (text_of z)) (some-injective (0 ∷ r) r' e) in
    omega (arith, k)
store-nul (x ∷ r) (suc i) r' e =
    let (q, e₁, e₂) = >>=-eq-some (store r i 0) _ e in
    let k = store-nul r i q e₁ in
    let k' : length (text_of (x ∷ q)) < length (x ∷ r) = elim (Bool-cases (x == 0)) [
      | inl z ↦ rw z (omega arith)
      | inr z ↦ rw z (omega (arith, k))
    ] in
    subst (λ z. length (text_of z) < length (x ∷ r)) (some-injective (x ∷ q) r' e₂) k'

move-length : (i d : ℕ) (str r : Bytes) → move i d str ≡ some r → length r ≡ length str
unfolding move
move-length i d str r e = elim (Bool-cases (ltb 0 d)) [
  | inl k ↦
      (let (c, e₁, e₂) = >>=-eq-some (load str (i + d)) _ (rw k at e) in store-length str i c r e₂)
  | inr k ↦ ap length (sym (some-injective str r (rw k at e)))
]

remove_one-length :
    (i d : ℕ) (str : Bytes) (r : ℕ × Bytes) → remove_one i d str ≡ some r → length r.1 ≡ length str
unfolding remove_one
remove_one-length i d str r e =
    let (space, e₁, e₂) = >>=-eq-some (escaped str (i + d)) _ e in by_space space e₂
  where
    by_space :
        (b : Bool)
        → (if b
            then (do str' ← store str i 32; some (d + 2, str'))
            else (do str' ← move i d str; some (d, str')))
          ≡ some r
        → length r.1 ≡ length str
    by_space true e =
        let (q, e₁, e₂) = >>=-eq-some (store str i 32) _ e in
        ap (λ (z : ℕ × Bytes). length z.1) (sym (some-injective _ r e₂))
        ∙ store-length str i 32 q e₁
    by_space false e =
        let (q, e₁, e₂) = >>=-eq-some (move i d str) _ e in
        ap (λ (z : ℕ × Bytes). length z.1) (sym (some-injective _ r e₂)) ∙ move-length i d str q e₁

remove_loop-length :
    (n i d : ℕ) (str r : Bytes) → remove_loop n i d str ≡ some r → length (text_of r) < length str
unfolding remove_loop
remove_loop-length zero i d str r e = cc
remove_loop-length (suc n) i d str r e =
    let (c, e₁, e₂) = >>=-eq-some (load str (i + d)) _ e in
    at_end (λ d' str'. remove_loop-length n (i + 1) d' str' r) (c == 0) e₂
  where
    at_end :
        ((d' : ℕ) (str' : Bytes)
          → remove_loop n (i + 1) d' str' ≡ some r
          → length (text_of r) < length str')
        → (b : Bool)
        → elim b as (λ x. Option Bytes) [
          | true ↦ store str i 0
          | false ↦ (do (d', str') ← remove_one i d str; remove_loop n (i + 1) d' str')
        ]
          ≡ some r
        → length (text_of r) < length str
    at_end ih true e = store-nul str i r e
    at_end ih false e =
        let (q, e₁, e₂) = >>=-eq-some (remove_one i d str) _ e in
        omega (arith, ih q.0 q.1 e₂, remove_one-length i d str q e₁)

-- The text that is left fits where the string with its NUL was.
pub remove_escapes-length :
    (fuel : ℕ) (str r : Bytes) → remove_escapes fuel str ≡ some r → length (text_of r) < length str
unfolding remove_escapes
remove_escapes-length fuel str r e = remove_loop-length fuel 0 0 str r e
