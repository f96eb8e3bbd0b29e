-- ===== src/Text/Facts.antt =====
-- Equality of texts, and copies that fit.
use fritz2ci.Prelude.{
  sym, none, ℕ, zero, suc, ◌-◌, ◌≤◌, ◌<◌, ◌≡◌, refl, ap, true, false, Bool-cases, inl, inr, some,
  [], ◌∷◌, length, take, ltb, ltb→lt, some-injective, ◌==◌, ==_iff, arith,
}
use fritz2ci.Text.{Text, same, strcpy, strlcpy}

pub same_self : (t : Text) → same t t ≡ true
same_self [] = refl
same_self (x ∷ t) = let e : (x == x) ≡ true = ground arith in rw (e, same_self t)

pub eq_of_same : (a b : Text) → same a b ≡ true → a ≡ b
eq_of_same [] [] h = refl
eq_of_same [] (y ∷ b) h = cc
eq_of_same (x ∷ a) [] h = cc
eq_of_same (x ∷ a) (y ∷ b) h = elim (Bool-cases (x == y)) [
  | inl e ↦ λ i. (==_iff x y).0 e i ∷ eq_of_same a b (rw e at h) i
  | inr e ↦ (let k : false ≡ true = rw e at h in cc)
]

pub strcpy_fits : (size : ℕ) (t : Text) → length t < size → strcpy size t ≡ some t
unfolding strcpy
strcpy_fits size t h = let e : ltb (length t) size ≡ true = ground arith in rw e

pub take_all : (n : ℕ) (t : Text) → length t ≤ n → take n t ≡ t
take_all zero [] h = refl
take_all (suc n) [] h = refl
take_all zero (x ∷ t) h = absurd (omega arith)
take_all (suc n) (x ∷ t) h = ap (λ z. x ∷ z) (take_all n t (omega arith))

pub strlcpy_fits : (size : ℕ) (t : Text) → length t < size → strlcpy size t ≡ t
unfolding strlcpy
strlcpy_fits size t h = take_all (size - 1) t (omega arith)

pub strcpy_bound : (size : ℕ) (w t : Text) → strcpy size w ≡ some t → length t < size
unfolding strcpy
strcpy_bound size w t h = elim (Bool-cases (ltb (length w) size)) [
  | inl e ↦
      (let k : some w ≡ some t = rw e at h in
        let same_length = ap length (some-injective w t k) in
        let k' : length w < size = ltb→lt (length w) size e in omega (arith, same_length, k'))
  | inr e ↦ (let k : none ≡ some t = rw e at h in cc)
]

pub strcpy_copies : (size : ℕ) (w t : Text) → strcpy size w ≡ some t → t ≡ w
unfolding strcpy
strcpy_copies size w t h = elim (Bool-cases (ltb (length w) size)) [
  | inl e ↦ sym (some-injective w t (rw e at h))
  | inr e ↦ (let k : none ≡ some t = rw e at h in cc)
]
