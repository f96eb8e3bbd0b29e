-- ===== src/Prelude/Loop.antt =====
-- Counted loops whose body may fault: `for (k = i; n rounds; k++) s = body(k, s)`.
use fritz2ci.Prelude.{
  ℕ, zero, suc, ◌+◌, ◌*◌, ◌≤◌, ◌<◌, ◌≡◌, refl, sym, ◌∙◌, Option, some, ◌>>=◌, >>=_congr, >>=_assoc,
  arith,
}
use native.Mathlib.Nat.{add-zero}
use Prim.Native.Nat.add

unfoldable pub for_loop {ℓ} : {S : Type ℓ} → ℕ → ℕ → (ℕ → S → Option S) → S → Option S
for_loop zero i body s = some s
for_loop (suc n) i body s = do s' ← body i s; for_loop n (i + 1) body s'

module _ {ℓ} {S : Type ℓ} where
  -- Bodies that agree on the rounds made.
  pub for_loop_congr :
      (n i : ℕ) (f g : ℕ → S → Option S)
      → ((k : ℕ) → i ≤ k → k < i + n → (s : S) → f k s ≡ g k s)
      → (s : S) → for_loop n i f s ≡ for_loop n i g s
  unfolding for_loop
  for_loop_congr zero i f g h s = refl
  for_loop_congr (suc n) i f g h s = rw (h i (omega arith) (omega arith) s) (
      >>=_congr (g i s) _ _
        (for_loop_congr n (i + 1) f g (λ k lo hi. h k (omega arith) (omega arith))))

  -- Two loops, the second where the first ends.
  pub for_loop-add :
      (a b i : ℕ) (f : ℕ → S → Option S) (s : S)
      → for_loop (a + b) i f s ≡ (for_loop a i f s >>= for_loop b (i + a) f)
  unfolding for_loop
  for_loop-add zero b i f s = rw (add.zero, add-zero)
  for_loop-add (suc a) b i f s =
      let e : i + suc a ≡ i + 1 + a = omega arith in
      rw (add.suc, e, for_loop)
        (>>=_congr (f i s) _ _ (for_loop-add a b (i + 1) f) ∙ sym (>>=_assoc (f i s) _ _))

  -- The start of the count can be moved into the body.
  pub for_loop_shift :
      (n i d : ℕ) (f : ℕ → S → Option S) (s : S)
      → for_loop n i (λ k. f (d + k)) s ≡ for_loop n (d + i) f s
  unfolding for_loop
  for_loop_shift zero i d f s = refl
  for_loop_shift (suc n) i d f s =
      let e : d + i + 1 ≡ d + (i + 1) = omega arith in
      rw e (>>=_congr (f (d + i) s) _ _ (for_loop_shift n (i + 1) d f))

  -- A loop over rows of a loop over columns walks the cells row by row.
  pub for_loop_nest :
      (rows cols i : ℕ) (f : ℕ → S → Option S) (s : S)
      → for_loop rows i (λ r. for_loop cols 0 (λ c. f (r * cols + c))) s
        ≡ for_loop (rows * cols) (i * cols) f s
  unfolding for_loop
  for_loop_nest zero cols i f s = let e : 0 * cols ≡ 0 = omega arith in rw e
  for_loop_nest (suc rows) cols i f s =
      let e : suc rows * cols ≡ cols + rows * cols = omega arith in
      let z : i * cols + 0 ≡ i * cols = omega arith in
      let n : i * cols + cols ≡ (i + 1) * cols = omega arith in
      rw
        (
          e,
          for_loop-add cols (rows * cols) (i * cols) f s,
          n,
          for_loop_shift cols 0 (i * cols) f s,
          z,
        )
        (>>=_congr (for_loop cols (i * cols) f s) _ _ (for_loop_nest rows cols (i + 1) f))
