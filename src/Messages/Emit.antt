-- ===== src/Messages/Emit.antt =====
-- The writer emits the documented formats, and computes their sizes.
use fritz2ci.Prelude.{
  ℕ, ◌+◌, ◌-◌, ◌<◌, ◌≤◌, ◌≡◌, refl, ap, subst, ◌∙◌, Option, none, some, List, [], ◌∷◌, ◌++◌, length,
  length-append, get_or, eq-tabulate, append_assoc, append-nil, ◌>>=◌, arith,
}
use native.Mathlib.Nat.{add-zero, add_assoc}
use fritz2ci.Prelude.Loop.{for_loop}
use fritz2ci.Memory.{Bytes, under}
use fritz2ci.Memory.Emits.{Emits, store_lem, load_lem, under-Emits, split_at}
use fritz2ci.Wire.{le16, add32, set_uchar, set_ushort}
use fritz2ci.Strings.{StrPtr, unset, null, object, Holds, write_string}
use fritz2ci.Strings.RoundTrip.{
  length_bytes, wire_string, length-wire_string, write_string-Emits, cut_strlen-Points,
}
use fritz2ci.Table.Layout.{AllHold, wire_strings}
use fritz2ci.Messages.{string_at}
use fritz2ci.Messages.Write.{
  add_string, add_listed, add_strings, write_at, write_listed, write_strings,
}
use fritz2ci.Messages.Body.{FirstHolds}

-- A writer of a whole object: every byte of it is overwritten.
abbrev pub Fills : (Bytes → Option Bytes) → Bytes → Type 0
Fills f bs = (msg : Bytes) → length msg ≡ length bs → f msg ≡ some bs

-- A call at an offset, behind what is written, fills the rest.
pub write_at_lem :
    (bs cs mid : Bytes) (off : ℕ) (f : Bytes → Option (Bytes × ℕ)) (n : ℕ)
    → Emits f cs n
    → off ≡ length bs
    → length mid ≡ length cs
    → write_at off f (bs ++ mid) ≡ some (bs ++ cs)
write_at_lem bs cs mid off f n h e em =
    let go = under-Emits bs cs mid [] off f n h e em in rw (simp append-nil at go)

pub length-wire_string_pos : (t : Bytes) → 1 ≤ length (wire_string t)
unfolding length_bytes
length-wire_string_pos t = ground (arith, length-wire_string t)

pub add_string_lem :
    (p : StrPtr) (t : Bytes) (size : ℕ)
    → Holds p t
    → size + length (wire_string t) ≤ 4294967296
    → add_string size p ≡ some (size + length (wire_string t) - 1)
unfolding add_string length_bytes
add_string_lem unset t size h small = elim h [ ]
add_string_lem null t size h small = rw h (unfold wire_string in ap some (omega arith))
add_string_lem (object s) t size h small =
    rw (cut_strlen-Points (object s) t h) (ap some (ground (arith, length-wire_string t)))

-- A first string, where the size already counts its length byte.
pub add_listed_lem :
    (l : Option (List StrPtr)) (t : Bytes) (size : ℕ)
    → FirstHolds l t
    → size + length (wire_string t) < 4294967296
    → add_listed l 0 size ≡ some (size + length (wire_string t) - 1)
unfolding add_listed
add_listed_lem none t size h small = rw h (unfold wire_string length_bytes in ap some (omega arith))
add_listed_lem (some []) t size h small = elim h [ ]
add_listed_lem (some (p ∷ ps)) t size h small = add_string_lem p t size h (omega arith)

set_zero :
    (bs : Bytes) (mid : Bytes) (off : ℕ)
    → off ≡ length bs
    → length mid ≡ 1
    → set_uchar (bs ++ mid) off 0 ≡ some (bs ++ 0 ∷ [])
unfolding set_uchar
set_zero bs mid off e em = rw (eq-tabulate 1 mid 0 em) (store_lem bs [] (get_or mid 0 0) 0 off e)

pub write_listed_lem :
    (l : Option (List StrPtr)) (t bs mid : Bytes) (off : ℕ)
    → FirstHolds l t
    → off ≡ length bs
    → length mid ≡ length (wire_string t)
    → write_listed off l (bs ++ mid) ≡ some (bs ++ wire_string t)
unfolding write_listed wire_string length_bytes
write_listed_lem none t bs mid off h e em = rw h (set_zero bs mid off e (rw h at em))
write_listed_lem (some []) t bs mid off h e em = elim h [ ]
write_listed_lem (some (unset ∷ ps)) t bs mid off h e em = elim h [ ]
write_listed_lem (some (null ∷ ps)) t bs mid off h e em = rw h (set_zero bs mid off e (rw h at em))
write_listed_lem (some (object s ∷ ps)) t bs mid off h e em =
    write_at_lem bs (wire_string t) mid off (write_string (object s)) (length (wire_string t))
      (write_string-Emits (object s) t h) e em

-- A 16-bit number at the start, and then a writer that leaves it alone.
pub after_ushort :
    (v : ℕ) (bs : Bytes) (k : Bytes → Option Bytes)
    → ((rest : Bytes) → length rest ≡ length bs → k (le16 v ++ rest) ≡ some (le16 v ++ bs))
    → Fills (λ msg. set_ushort msg 0 v >>= k) (le16 v ++ bs)
unfolding set_ushort
after_ushort v bs k h [] e = absurd (omega arith)
after_ushort v bs k h (x ∷ []) e = absurd (omega arith)
after_ushort v bs k h (x ∷ y ∷ rest) e = h rest (omega arith)

-- Two of them.
pub after_ushorts :
    (v w : ℕ) (bs : Bytes) (k : Bytes → Option Bytes)
    → ((rest : Bytes)
        → length rest ≡ length bs
        → k (le16 v ++ (le16 w ++ rest)) ≡ some (le16 v ++ (le16 w ++ bs)))
    → Fills (λ msg. set_ushort msg 0 v >>= λ d. set_ushort d 2 w >>= k) (le16 v ++ (le16 w ++ bs))
unfolding set_ushort
after_ushorts v w bs k h [] e = absurd (omega arith)
after_ushorts v w bs k h (a ∷ []) e = absurd (omega arith)
after_ushorts v w bs k h (a ∷ b ∷ []) e = absurd (omega arith)
after_ushorts v w bs k h (a ∷ b ∷ c ∷ []) e = absurd (omega arith)
after_ushorts v w bs k h (a ∷ b ∷ c ∷ d ∷ rest) e = h rest (omega arith)

-- The body of the loop that writes a list: the state is the buffer and `pos`.
abbrev write_next : Option (List StrPtr) → ℕ → Bytes × ℕ → Option (Bytes × ℕ)
write_next l i s = do
  p ← string_at l i
  (m, k) ← under s.1 (write_string p) s.0
  some (m, add32 s.1 k)

write_next_loop :
    (ps : List StrPtr) (ts : List Bytes) (pre tail : List StrPtr) (done mid : Bytes) (n k : ℕ)
    → AllHold ps ts
    → n ≡ length ts
    → k ≡ length pre
    → length mid ≡ length (wire_strings ts)
    → length done + length (wire_strings ts) < 4294967296
    → for_loop n k (write_next (some (pre ++ (ps ++ tail)))) (done ++ mid, length done)
      ≡ some (done ++ wire_strings ts, length done + length (wire_strings ts))
unfolding for_loop string_at
write_next_loop [] [] pre tail done mid n k h en ek em small =
    rw (en, eq-tabulate 0 mid 0 em, add-zero)
write_next_loop [] (t ∷ ts) pre tail done mid n k h en ek em small = elim h [ ]
write_next_loop (p ∷ ps) [] pre tail done mid n k h en ek em small = elim h [ ]
write_next_loop (p ∷ ps) (t ∷ ts) pre tail done mid n k (hp, hs) en ek em small =
    let w : ℕ = length (wire_string t) in
    let total : length (wire_strings (t ∷ ts)) ≡ w + length (wire_strings ts) =
      length-append (wire_string t) (wire_strings ts) in
    let (m₁, m₂, e, e₁, e₂) = split_at w (length (wire_strings ts)) mid (em ∙ total) in
    let pos : add32 (length done) w ≡ length done + w = omega arith in
    let rest =
      write_next_loop ps ts (pre ++ p ∷ []) tail (done ++ wire_string t) m₂ (length ts) (k + 1) hs
        refl (omega (arith, length-append pre (p ∷ []))) e₂
        (omega (arith, length-append done (wire_string t))) in
    rw (en, e, load_lem pre (ps ++ tail) p k ek)
      (rw
        (under-Emits done (wire_string t) m₁ m₂ (length done) _ _ (write_string-Emits p t hp) refl
          e₁)
        (rw (pos, total) (simp (append_assoc, length-append, add_assoc) at rest)))

pub write_strings_lem :
    (ps : List StrPtr) (ts : List Bytes) (done mid : Bytes) (n pos : ℕ)
    → AllHold ps ts
    → n ≡ length ts
    → pos ≡ length done
    → length mid ≡ length (wire_strings ts)
    → length done + length (wire_strings ts) < 4294967296
    → write_strings (some ps) n (done ++ mid) pos ≡ some (done ++ wire_strings ts)
unfolding write_strings
write_strings_lem ps ts done mid n pos h en ep em small = rw ep (
    rw (
      subst
        (λ a.
          for_loop n 0 (write_next (some a)) (done ++ mid, length done)
          ≡ some (done ++ wire_strings ts, length done + length (wire_strings ts)))
        (append-nil ps) (write_next_loop ps ts [] [] done mid n 0 h en refl em small)))

add_strings_loop :
    (ps : List StrPtr) (ts : List Bytes) (pre tail : List StrPtr) (n k size : ℕ)
    → AllHold ps ts
    → n ≡ length ts
    → k ≡ length pre
    → size + length (wire_strings ts) < 4294967296
    → for_loop n k
        (λ i sz. do p ← string_at (some (pre ++ (ps ++ tail))) i; add_string (add32 sz 1) p)
        size
      ≡ some (size + length (wire_strings ts))
unfolding for_loop string_at
add_strings_loop [] [] pre tail n k size h en ek small = rw (en, add-zero)
add_strings_loop [] (t ∷ ts) pre tail n k size h en ek small = elim h [ ]
add_strings_loop (p ∷ ps) [] pre tail n k size h en ek small = elim h [ ]
add_strings_loop (p ∷ ps) (t ∷ ts) pre tail n k size (hp, hs) en ek small =
    let w : ℕ = length (wire_string t) in
    let total : length (wire_strings (t ∷ ts)) ≡ w + length (wire_strings ts) =
      length-append (wire_string t) (wire_strings ts) in
    let plus : add32 size 1 ≡ size + 1 = omega (arith, length-wire_string_pos t) in
    let one : size + 1 + w - 1 ≡ size + w = omega arith in
    let rest =
      add_strings_loop ps ts (pre ++ p ∷ []) tail (length ts) (k + 1) (size + w) hs refl
        (omega (arith, length-append pre (p ∷ []))) (omega arith) in
    rw (en, load_lem pre (ps ++ tail) p k ek)
      (rw (plus) (
        rw (add_string_lem p t (size + 1) hp (omega arith))
          (rw (one, total) (simp (append_assoc, add_assoc) at rest))))

pub add_strings_lem :
    (ps : List StrPtr) (ts : List Bytes) (n size : ℕ)
    → AllHold ps ts
    → n ≡ length ts
    → size + length (wire_strings ts) < 4294967296
    → add_strings (some ps) n size ≡ some (size + length (wire_strings ts))
unfolding add_strings
add_strings_lem ps ts n size h en small =
    subst
      (λ a.
        for_loop n 0 (λ i sz. do p ← string_at (some a) i; add_string (add32 sz 1) p) size
        ≡ some (size + length (wire_strings ts)))
      (append-nil ps) (add_strings_loop ps ts [] [] n 0 size h en refl small)
