-- ===== src/Table/Write.antt =====
-- The table writers emit the format, and the size that they are given room for is its length.
use fritz2ci.Prelude.{
  ℕ, ◌+◌, ◌*◌, ◌<◌, ◌≡◌, refl, sym, ap, subst, ◌∙◌, some, List, [], ◌∷◌, ◌++◌, eq-tabulate, length,
  length-append, append_assoc, append-nil, arith,
}
use native.Mathlib.Nat.{add-zero, add_assoc}
use fritz2ci.Prelude.Loop.{for_loop}
use fritz2ci.Memory.{Bytes, copy}
use fritz2ci.Memory.Emits.{Emits, load_lem, under-Emits, copy_lem, split_at}
use fritz2ci.Wire.{add32, le16}
use fritz2ci.Strings.{StrPtr, unset, null, object, len_or_zero, pointee, Holds}
use fritz2ci.Strings.RoundTrip.{
  length_bytes, wire_string, length-wire_string, len_or_zero-Holds, set_strlen-Emits,
}
use fritz2ci.Table.{Table, rowidx, copy_if_set, write_cell, put_table}
use fritz2ci.Table.Layout.{
  AllHold, AllHold-AllPoint, wire_strings, Texts, wire_table, Fits, Represents, Represents-area,
  Represents-small, length-wire_table, for_loop-rows,
}

copy_if_set-copy :
    (p : StrPtr) (t msg : Bytes) (bytes : ℕ)
    → Holds p t
    → copy_if_set p (length t) msg bytes ≡ copy (length t) msg bytes (pointee p) 0
unfolding copy_if_set copy
copy_if_set-copy unset t msg bytes h = elim h [ ]
copy_if_set-copy null t msg bytes h = rw h
copy_if_set-copy (object s) t msg bytes h = refl

-- One string is written at the end of what is done.
write_cell_split :
    (p : StrPtr) (t done m₁ m₂ post rest : Bytes) (pre tail : List StrPtr) (k : ℕ)
    → Holds p t
    → len_or_zero p ≡ some (length t)
    → pointee p ≡ t ++ rest
    → k ≡ length pre
    → length m₁ ≡ length (length_bytes (length t))
    → length m₂ ≡ length t
    → length done + (length (length_bytes (length t)) + length t) < 4294967296
    → write_cell (pre ++ (p ∷ tail)) k (done ++ (m₁ ++ (m₂ ++ post)), length done)
      ≡ some (
        done ++ (length_bytes (length t) ++ (t ++ post)),
        length done + (length (length_bytes (length t)) + length t),
      )
unfolding write_cell
write_cell_split p t done m₁ m₂ post rest pre tail k h len src ek e₁ e₂ small =
    let n : ℕ = length (length_bytes (length t)) in
    let a : add32 (length done) n ≡ length (done ++ length_bytes (length t)) =
      omega (arith, length-append done (length_bytes (length t))) in
    let b : add32 (length (done ++ length_bytes (length t))) (length t)
        ≡ length done + (n + length t) =
      omega (arith, length-append done (length_bytes (length t))) in
    rw (load_lem pre tail p k ek) (
      rw len (
        rw (under-Emits done _ m₁ (m₂ ++ post) _ _ _ (set_strlen-Emits (length t)) refl e₁) (
          rw a (
            rw (copy_if_set-copy p t _ _ h) (
              rw src (
                rw (sym (append_assoc done (length_bytes (length t)) (m₂ ++ post))) (
                  rw
                    (copy_lem t (done ++ length_bytes (length t)) m₂ post [] rest (length t) _ 0
                      refl e₂ refl refl)
                    (rw (b, append_assoc)))))))))

write_cell_lem :
    (p : StrPtr) (t done mid post : Bytes) (pre tail : List StrPtr) (k : ℕ)
    → Holds p t
    → k ≡ length pre
    → length mid ≡ length (wire_string t)
    → length done + length (wire_string t) < 4294967296
    → write_cell (pre ++ (p ∷ tail)) k (done ++ (mid ++ post), length done)
      ≡ some (done ++ (wire_string t ++ post), length done + length (wire_string t))
unfolding wire_string
write_cell_lem p t done mid post pre tail k h ek em small =
    let (len, (rest, src), fits) = len_or_zero-Holds p t h in
    let (m₁, m₂, e, e₁, e₂) =
      split_at (length (length_bytes (length t))) (length t) mid (em ∙ length-wire_string t) in
    let small' = rw (length-wire_string t) at small in
    let go = write_cell_split p t done m₁ m₂ post rest pre tail k h len src ek e₁ e₂ small' in
    rw (length-wire_string t) (
      subst
        (λ m.
          write_cell (pre ++ (p ∷ tail)) k (done ++ (m ++ post), length done)
          ≡ some (
            done ++ ((length_bytes (length t) ++ t) ++ post),
            length done + (length (length_bytes (length t)) + length t),
          ))
        (sym e) (simp append_assoc go))

-- A loop over an array writes its strings one behind the other.
pub write_cells :
    (ps : List StrPtr) (ts : List Bytes) (done mid post : Bytes) (pre tail : List StrPtr) (n k : ℕ)
    → AllHold ps ts
    → n ≡ length ts
    → k ≡ length pre
    → length mid ≡ length (wire_strings ts)
    → length done + length (wire_strings ts) < 4294967296
    → for_loop n k (write_cell (pre ++ (ps ++ tail))) (done ++ (mid ++ post), length done)
      ≡ some (done ++ (wire_strings ts ++ post), length done + length (wire_strings ts))
unfolding for_loop
write_cells [] [] done mid post pre tail n k h en ek em small =
    rw (en, eq-tabulate 0 mid 0 em, add-zero)
write_cells [] (t ∷ ts) done mid post pre tail n k h en ek em small = elim h [ ]
write_cells (p ∷ ps) [] done mid post pre tail n k h en ek em small = elim h [ ]
write_cells (p ∷ ps) (t ∷ ts) done mid post pre tail n k (hp, hs) en ek em small =
    let (m₁, m₂, e, e₁, e₂) =
      split_at (length (wire_string t)) (length (wire_strings ts)) mid
        (em ∙ length-append (wire_string t) (wire_strings ts)) in
    let w : ℕ = length (wire_string t) in
    let total : length (wire_strings (t ∷ ts)) ≡ w + length (wire_strings ts) =
      length-append (wire_string t) (wire_strings ts) in
    let next : length (done ++ wire_string t) ≡ length done + w =
      length-append done (wire_string t) in
    let rest =
      write_cells ps ts (done ++ wire_string t) m₂ post (pre ++ p ∷ []) tail (length ts) (k + 1) hs
        refl (omega (arith, length-append pre (p ∷ []))) e₂ (omega arith) in
    let rest' = simp (append_assoc, length-append, add_assoc) at rest in
    let first = write_cell_lem p t done m₁ (m₂ ++ post) pre (ps ++ tail) k hp ek e₁ (omega arith) in
    rw (en, e, append_assoc, append_assoc) (rw first (rw total rest'))

write_array :
    (ps : List StrPtr) (ts : List Bytes) (done mid post : Bytes) (n : ℕ)
    → AllHold ps ts
    → n ≡ length ts
    → length mid ≡ length (wire_strings ts)
    → length done + length (wire_strings ts) < 4294967296
    → for_loop n 0 (write_cell ps) (done ++ (mid ++ post), length done)
      ≡ some (done ++ (wire_strings ts ++ post), length done + length (wire_strings ts))
write_array ps ts done mid post n h en em small =
    subst
      (λ a.
        for_loop n 0 (write_cell a) (done ++ (mid ++ post), length done)
        ≡ some (done ++ (wire_strings ts ++ post), length done + length (wire_strings ts)))
      (append-nil ps) (write_cells ps ts done mid post [] [] n 0 h en refl em small)

module _ (t : Table) (x : Texts) (r : Represents t x) (f : Fits x) where
  dims : Bytes
  dims = le16 t.nrows ++ le16 t.ncols

  put_names :
      (m₁ post : Bytes)
      → length m₁ ≡ length (wire_strings x.names)
      → for_loop t.ncols 0 (write_cell t.column_names) (dims ++ (m₁ ++ post), 4)
        ≡ some (dims ++ (wire_strings x.names ++ post), length (dims ++ wire_strings x.names))
  unfolding dims
  put_names m₁ post e₁ = rw (length-append dims (wire_strings x.names)) (
      write_array t.column_names x.names dims m₁ post t.ncols
        (AllHold-AllPoint t.column_names x.names r.names) r.ncols e₁
        (omega (arith, length-wire_table x, f.size_u32)))

  put_fields :
      (done m₂ post : Bytes)
      → length done ≡ 4 + length (wire_strings x.names)
      → length m₂ ≡ length (wire_strings x.cells)
      → for_loop t.nrows 0
          (λ i. for_loop t.ncols 0 (λ j. write_cell t.fields (rowidx t i + j)))
          (done ++ (m₂ ++ post), length done)
        ≡ some (done ++ (wire_strings x.cells ++ post), length done + length (wire_strings x.cells))
  put_fields done m₂ post ed e₂ =
      for_loop-rows t (write_cell t.fields) _ (Represents-small r f)
      ∙ write_array t.fields x.cells done m₂ post (t.nrows * t.ncols) r.cells (Represents-area r f)
          e₂ (omega (arith, length-wire_table x, f.size_u32))

  put_table_split :
      (m₀ m₁ m₂ post : Bytes)
      → length m₀ ≡ 4
      → length m₁ ≡ length (wire_strings x.names)
      → length m₂ ≡ length (wire_strings x.cells)
      → put_table t (m₀ ++ (m₁ ++ (m₂ ++ post)))
        ≡ some (wire_table x ++ post, length (wire_table x))
  unfolding put_table wire_table dims
  put_table_split m₀ m₁ m₂ post e₀ e₁ e₂ =
      let fields =
        put_fields (dims ++ wire_strings x.names) m₂ post
          (length-append dims (wire_strings x.names)) e₂ in
      let body = sym (append_assoc (wire_strings x.names) (wire_strings x.cells) post) in
      let total : length (dims ++ wire_strings x.names) + length (wire_strings x.cells)
          ≡ length (wire_table x) =
        omega (arith, length-append (wire_strings x.names) (wire_strings x.cells)) in
      rw (eq-tabulate 4 m₀ 0 e₀) (
        rw (put_names m₁ (m₂ ++ post) e₁)
          (rw fields (λ i. some (le16 (r.nrows i) ++ (le16 (r.ncols i) ++ body i), total i))))

-- The writer puts the format of the table at the start of a buffer that has room for it, keeps
-- what stands behind, and returns the length of the format.
pub put_table-Emits :
    (t : Table) (x : Texts)
    → Represents t x
    → Fits x
    → Emits (put_table t) (wire_table x) (length (wire_table x))
put_table-Emits t x r f mid post e =
    let names : ℕ = length (wire_strings x.names) in
    let cells : ℕ = length (wire_strings x.cells) in
    let (m₀, m, p, e₀, e') = split_at 4 (names + cells) mid (omega (arith, length-wire_table x)) in
    let (m₁, m₂, q, e₁, e₂) = split_at names cells m e' in
    subst (λ a. put_table t (a ++ post) ≡ some (wire_table x ++ post, length (wire_table x)))
      (sym (p ∙ ap (◌++◌ m₀) q))
      (simp append_assoc (put_table_split t x r f m₀ m₁ m₂ post e₀ e₁ e₂))
