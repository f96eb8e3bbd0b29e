-- ===== src/Strings/RoundTrip.antt =====
-- Strings on the wire: what the writers emit, and that the readers get it back.
use fritz2ci.Prelude.{
  ℕ, ◌+◌, ◌≤◌, ◌<◌, ◌≡◌, ◌≢◌, refl, sym, ap, ◌∙◌, true, some, [], ◌∷◌, ◌++◌, All, length,
  length-append, length-tabulate, leb, append_assoc, Bool-cases, if◌then◌else◌, inl, inr,
  eq-tabulate, tabulate, tabulate-suc, arith,
}
use fritz2ci.Memory.{Bytes, malloc, copy, store}
use fritz2ci.Memory.Emits.{Emits, copy_lem, store_lem, split_at}
use fritz2ci.Wire.{le8, le16}
use fritz2ci.Strings.{
  StrPtr, unset, null, object, strlen, cut_strlen, len_or_zero, pointee, msg_strlen, set_strlen,
  write_string, read_str, read_string, Points, Holds, c_string,
}

-- The format of a length and of a string.
unfoldable pub length_bytes : ℕ → Bytes
length_bytes n = if leb 255 n then 255 ∷ le16 n else le8 n

unfoldable pub wire_string : Bytes → Bytes
wire_string t = length_bytes (length t) ++ t

pub strlen-append :
    (t rest : Bytes) → All (λ c. c ≢ 0) t → strlen (t ++ (0 ∷ rest)) ≡ some (length t)
unfolding strlen
strlen-append [] rest h = refl
strlen-append (c ∷ t) rest (hc, h) = ground (arith, strlen-append t rest h)

pub set_strlen-Emits : (n : ℕ) → Emits (set_strlen n) (length_bytes n) (length (length_bytes n))
unfolding set_strlen length_bytes
set_strlen-Emits n mid post e = elim (Bool-cases (leb 255 n)) [
  | inl long ↦ rw long (rw (eq-tabulate 3 mid 0 (rw long at e)) refl)
  | inr short ↦ rw short (rw (eq-tabulate 1 mid 0 (rw short at e)) refl)
]

pub msg_strlen-length_bytes :
    (n : ℕ) (r : Bytes)
    → n < 65536
    → msg_strlen (length_bytes n ++ r) ≡ some (n, length (length_bytes n))
unfolding msg_strlen length_bytes
msg_strlen-length_bytes n r h = ground arith

pub length-wire_string :
    (t : Bytes) → length (wire_string t) ≡ length (length_bytes (length t)) + length t
unfolding wire_string
length-wire_string t = length-append (length_bytes (length t)) t

pub cut_strlen-Points : (p : StrPtr) (t : Bytes) → Points p t → cut_strlen p ≡ some (length t)
unfolding cut_strlen
cut_strlen-Points unset t h = elim h [ ]
cut_strlen-Points null t h = elim h [ ]
cut_strlen-Points (object s) t (rest, e, text) =
    rw (e, strlen-append t rest text.0) (ap some (omega (arith, text.1)))

pub length-wire_string_le : (t : Bytes) → length (wire_string t) ≤ length t + 3
unfolding length_bytes
length-wire_string_le t = ground (arith, length-wire_string t)

-- What `write_string` and the table writers need of a string pointer.
pub len_or_zero-Holds :
    (p : StrPtr) (t : Bytes)
    → Holds p t
    → (len_or_zero p ≡ some (length t))
      × ((rest : Bytes) × (pointee p ≡ t ++ rest))
      × (length t < 65536)
unfolding len_or_zero cut_strlen pointee
len_or_zero-Holds unset t h = elim h [ ]
len_or_zero-Holds null t h = rw h (refl, ([], refl), omega arith)
len_or_zero-Holds (object s) t (rest, e, text) =
    (rw (e, strlen-append t rest text.0) (ap some (omega (arith, text.1))), (0 ∷ rest, e), text.1)

pub write_string-Emits :
    (p : StrPtr) (t : Bytes)
    → Holds p t
    → Emits (write_string p) (wire_string t) (length (wire_string t))
unfolding write_string wire_string
write_string-Emits p t h mid post e =
    let (len, (rest, src), fits) = len_or_zero-Holds p t h in
    let (m₁, m₂, em, e₁, e₂) =
      split_at (length (length_bytes (length t))) (length t) mid (e ∙ length-wire_string t) in
    rw (em, len, append_assoc)
      (rw (set_strlen-Emits (length t) m₁ (m₂ ++ post) e₁) (
        rw src (
          rw (copy_lem t (length_bytes (length t)) m₂ post [] rest (length t) _ 0 refl e₂ refl refl)
            (rw (append_assoc, length-append)))))

-- What the readers allocate for a text that stands in the middle of a message.
read_into :
    (junk : ℕ → ℕ) (t pre post : Bytes) (si : ℕ)
    → si ≡ length pre
    → copy (length t) (malloc junk (length t + 1)) 0 (pre ++ (t ++ post)) si
      ≡ some (t ++ (junk (length t) ∷ []))
unfolding malloc
read_into junk t pre post si e = rw (tabulate-suc (length t) junk) (
    copy_lem t [] (tabulate (length t) junk) (junk (length t) ∷ []) pre post (length t) 0 si refl
      (length-tabulate (length t) junk) refl e)

store_nul : (t : Bytes) (x : ℕ) → store (t ++ (x ∷ [])) (length t) 0 ≡ some (t ++ (0 ∷ []))
store_nul t x = store_lem t [] x 0 (length t) refl

pub read_str-append :
    (junk : ℕ → ℕ) (t post : Bytes) → read_str junk (t ++ post) (length t) ≡ some (c_string t)
unfolding read_str
read_str-append junk t post = rw (read_into junk t [] post 0 refl) (rw (store_nul t _))

pub read_string-wire_string :
    (junk : ℕ → ℕ) (t post : Bytes)
    → length t < 65536
    → read_string junk true (some (wire_string t ++ post))
      ≡ some (c_string t, length (wire_string t))
unfolding read_string wire_string
read_string-wire_string junk t post h = rw append_assoc (
    rw (msg_strlen-length_bytes (length t) (t ++ post) h) (
      rw (read_into junk t (length_bytes (length t)) post _ refl)
        (rw (store_nul t _, length-append))))

-- A C string, or NULL for the empty one, written to a buffer with as much room as its format has,
-- `mid`: the format replaces exactly these bytes, and reading it gives the string and the number
-- of bytes that the writer returned.
pub read_string-write_string :
    (junk : ℕ → ℕ) (p : StrPtr) (t mid post : Bytes)
    → Holds p t
    → length mid ≡ length (wire_string t)
    → (write_string p (mid ++ post) ≡ some (wire_string t ++ post, length mid))
      × (read_string junk true (some (wire_string t ++ post)) ≡ some (c_string t, length mid))
read_string-write_string junk p t mid post h e =
    let (len, src, fits) = len_or_zero-Holds p t h in
    (
      write_string-Emits p t h mid post e ∙ ap (λ n. some (wire_string t ++ post, n)) (sym e),
      read_string-wire_string junk t post fits ∙ ap (λ n. some (c_string t, n)) (sym e),
    )
