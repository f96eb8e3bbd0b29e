-- ===== src/Memory/Emits.antt =====
-- How the operations of Memory act on a region that is split around the bytes they touch.
use fritz2ci.Prelude.{
  ℕ, ◌+◌, ◌≡◌, refl, sym, Option, some, List, [], ◌∷◌, ◌++◌, append_assoc, length, length-append,
  take, drop, take-append-drop, length-take_le, length-drop, get_elem?-append, arith,
}
use fritz2ci.Memory.{Bytes, load, store, advance, under, copy}

pub store_lem {ℓ} :
    {A : Type ℓ} (pre post : List A) (x v : A) (i : ℕ)
    → i ≡ length pre
    → store (pre ++ (x ∷ post)) i v ≡ some (pre ++ (v ∷ post))
unfolding store
store_lem [] post x v i e = rw e
store_lem (y ∷ pre) post x v i e = rw (e, store_lem pre post x v (length pre) refl)

pub load_lem {ℓ} :
    {A : Type ℓ} (pre post : List A) (x : A) (i : ℕ)
    → i ≡ length pre
    → load (pre ++ (x ∷ post)) i ≡ some x
unfolding load
load_lem pre post x i e = rw e (get_elem?-append pre x post)

pub advance_lem : (pre r : Bytes) (n : ℕ) → n ≡ length pre → advance n (pre ++ r) ≡ some r
unfolding advance
advance_lem [] r n e = rw e
advance_lem (y ∷ pre) r n e = rw e (advance_lem pre r (length pre) refl)

-- A loop that copies `s` from the middle of one region over as many bytes of another.
pub copy_lem :
    (s pre mid post spre spost : Bytes) (n di si : ℕ)
    → n ≡ length s
    → length mid ≡ length s
    → di ≡ length pre
    → si ≡ length spre
    → copy n (pre ++ (mid ++ post)) di (spre ++ (s ++ spost)) si ≡ some (pre ++ (s ++ post))
unfolding copy
copy_lem [] pre [] post spre spost n di si en em ed es = rw en
copy_lem [] pre (m ∷ mid) post spre spost n di si en em ed es = absurd (omega arith)
copy_lem (x ∷ s) pre [] post spre spost n di si en em ed es = absurd (omega arith)
copy_lem (x ∷ s) pre (m ∷ mid) post spre spost n di si en em ed es =
    rw (en, load_lem spre (s ++ spost) x si es, store_lem pre (mid ++ post) m x di ed)
      (shift (
        copy_lem s (pre ++ x ∷ []) mid post (spre ++ x ∷ []) spost (length s) (di + 1) (si + 1) refl
          (omega arith) (omega (arith, length-append pre (x ∷ [])))
          (omega (arith, length-append spre (x ∷ [])))))
  where
    shift :
        copy
            (length s)
            ((pre ++ x ∷ []) ++ (mid ++ post))
            (di + 1)
            ((spre ++ x ∷ []) ++ (s ++ spost))
            (si + 1)
          ≡ some ((pre ++ x ∷ []) ++ (s ++ post))
        → copy
            (length s)
            (pre ++ (x ∷ (mid ++ post)))
            (di + 1)
            (spre ++ (x ∷ (s ++ spost)))
            (si + 1)
          ≡ some (pre ++ (x ∷ (s ++ post)))
    shift h = simp append_assoc at h

-- `f` overwrites as many bytes as `bs` has by `bs`, touches nothing behind them, and returns `a`.
abbrev pub Emits {ℓ} : {A : Type ℓ} → (Bytes → Option (Bytes × A)) → Bytes → A → Type ℓ
Emits f bs a = (mid post : Bytes) → length mid ≡ length bs → f (mid ++ post) ≡ some (bs ++ post, a)

pub under_lem {ℓ} :
    {A : Type ℓ} (pre r r' : Bytes) (n : ℕ) (f : Bytes → Option (Bytes × A)) (a : A)
    → n ≡ length pre
    → f r ≡ some (r', a)
    → under n f (pre ++ r) ≡ some (pre ++ r', a)
unfolding under
under_lem [] r r' n f a e h = rw e h
under_lem (y ∷ pre) r r' n f a e h = rw (e, under_lem pre r r' (length pre) f a refl h)

-- Two calls, the second at the end of what the first wrote.
pub under-Emits {ℓ} :
    {A : Type ℓ} (bs cs mid post : Bytes) (n : ℕ) (f : Bytes → Option (Bytes × A)) (a : A)
    → Emits f cs a
    → n ≡ length bs
    → length mid ≡ length cs
    → under n f (bs ++ (mid ++ post)) ≡ some (bs ++ (cs ++ post), a)
under-Emits bs cs mid post n f a h e m = under_lem bs _ _ n f a e (h mid post m)

-- Bytes enough for two pieces are split between them.
pub split_at :
    (n k : ℕ) (mid : Bytes)
    → length mid ≡ n + k
    → (m₁ m₂ : Bytes) × (mid ≡ m₁ ++ m₂) × (length m₁ ≡ n) × (length m₂ ≡ k)
split_at n k mid h = (
  take n mid,
  drop n mid,
  sym (take-append-drop n mid),
  length-take_le n mid (omega arith),
  omega (arith, length-drop n mid),
)
