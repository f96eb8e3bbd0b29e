-- ===== src/Table/Read.antt =====
-- The table reader inverts the writer.
use fritz2ci.Prelude.{
  ℕ, ◌+◌, ◌*◌, ◌<◌, ◌≡◌, refl, sym, subst, ◌∙◌, some, List, [], ◌∷◌, ◌++◌, map, replicate, length,
  length-append, length-replicate, append_assoc, append-nil, All, arith,
}
use fritz2ci.Prelude.Loop.{for_loop}
use fritz2ci.Memory.{Bytes}
use fritz2ci.Memory.Emits.{advance_lem, store_lem}
use fritz2ci.Wire.{add32, le16}
use fritz2ci.Wire.RoundTrip.{join16}
use fritz2ci.Strings.{StrPtr, unset, IsText, c_string}
use fritz2ci.Strings.RoundTrip.{length_bytes, wire_string, msg_strlen-length_bytes, read_str-append}
use fritz2ci.Table.{rowidx, read_cell, get_table}
use fritz2ci.Table.Layout.{
  wire_strings, Texts, wire_table, length-wire_table, Fits, table_of, for_loop-rows,
}
use native.Mathlib.Nat.{add-zero, add_assoc}

module _ (junk : ℕ → ℕ) where
  read_cell_lem :
      (t done rest : Bytes) (q : StrPtr) (pre tail : List StrPtr) (k : ℕ)
      → IsText t
      → k ≡ length pre
      → length done + length (wire_string t) < 4294967296
      → read_cell junk (done ++ (wire_string t ++ rest)) k (pre ++ (q ∷ tail), length done)
        ≡ some (pre ++ (c_string t ∷ tail), length done + length (wire_string t))
  unfolding read_cell wire_string
  read_cell_lem t done rest q pre tail k h ek small =
      let n : ℕ = length (length_bytes (length t)) in
      let small' = rw (length-append (length_bytes (length t)) t) at small in
      let a : add32 (length done) n ≡ length (done ++ length_bytes (length t)) =
        omega (arith, length-append done (length_bytes (length t))) in
      let b : add32 (length (done ++ length_bytes (length t))) (length t)
          ≡ length done + length (length_bytes (length t) ++ t) =
        omega (
          arith,
          length-append done (length_bytes (length t)),
          length-append (length_bytes (length t)) t,
        ) in
      rw append_assoc (
        rw (advance_lem done (length_bytes (length t) ++ (t ++ rest)) (length done) refl) (
          rw (msg_strlen-length_bytes (length t) (t ++ rest) h.1) (
            rw a (
              rw (sym (append_assoc done (length_bytes (length t)) (t ++ rest))) (
                rw (advance_lem (done ++ length_bytes (length t)) (t ++ rest) _ refl) (
                  rw (read_str-append junk t rest)
                    (rw (store_lem pre tail q (c_string t) k ek) (rw b))))))))

  read_cells :
      (ts : List Bytes) (done post : Bytes) (qs pre tail : List StrPtr) (n k : ℕ)
      → All IsText ts
      → n ≡ length ts
      → length qs ≡ length ts
      → k ≡ length pre
      → length done + length (wire_strings ts) < 4294967296
      → for_loop n k
          (read_cell junk (done ++ (wire_strings ts ++ post)))
          (pre ++ (qs ++ tail), length done)
        ≡ some (pre ++ (map c_string ts ++ tail), length done + length (wire_strings ts))
  unfolding for_loop
  read_cells [] done post [] pre tail n k h en eq ek small = rw (en, add-zero)
  read_cells [] done post (q ∷ qs) pre tail n k h en eq ek small = absurd (omega arith)
  read_cells (t ∷ ts) done post [] pre tail n k h en eq ek small = absurd (omega arith)
  read_cells (t ∷ ts) done post (q ∷ qs) pre tail n k (ht, hs) en eq ek small =
      let total : length (wire_strings (t ∷ ts))
          ≡ length (wire_string t) + length (wire_strings ts) =
        length-append (wire_string t) (wire_strings ts) in
      let rest =
        read_cells ts (done ++ wire_string t) post qs (pre ++ c_string t ∷ []) tail (length ts)
          (k + 1) hs refl (omega arith) (omega (arith, length-append pre (c_string t ∷ [])))
          (omega (arith, length-append done (wire_string t))) in
      let first =
        read_cell_lem t done (wire_strings ts ++ post) q pre (qs ++ tail) k ht ek (omega arith) in
      rw (en, append_assoc)
        (rw first (rw total (simp (append_assoc, length-append, add_assoc) at rest)))

  read_array :
      (ts : List Bytes) (done post : Bytes) (n : ℕ)
      → All IsText ts
      → n ≡ length ts
      → length done + length (wire_strings ts) < 4294967296
      → for_loop n 0
          (read_cell junk (done ++ (wire_strings ts ++ post)))
          (replicate n unset, length done)
        ≡ some (map c_string ts, length done + length (wire_strings ts))
  read_array ts done post n h en small =
      subst
        (λ a.
          for_loop n 0 (read_cell junk (done ++ (wire_strings ts ++ post))) (a, length done)
          ≡ some (map c_string ts, length done + length (wire_strings ts)))
        (append-nil (replicate n unset))
        (rw (append-nil (map c_string ts)) at (
          read_cells ts done post (replicate n unset) [] [] n 0 h en (length-replicate n unset ∙ en)
            refl small))

  module _ (x : Texts) (f : Fits x) (post : Bytes) where
    dims : Bytes
    dims = le16 x.rows ++ le16 (length x.names)

    read_names :
        for_loop
          (length x.names)
          0
          (read_cell junk (dims ++ (wire_strings x.names ++ (wire_strings x.cells ++ post))))
          (replicate (length x.names) unset, 4)
        ≡ some (map c_string x.names, length (dims ++ wire_strings x.names))
    unfolding dims
    read_names = rw (length-append dims (wire_strings x.names)) (
        read_array x.names dims (wire_strings x.cells ++ post) (length x.names) f.names_texts refl
          (omega (arith, length-wire_table x, f.size_u32)))

    read_fields :
        for_loop x.rows 0
          (λ i. for_loop (length x.names) 0 (λ j.
            read_cell junk
              ((dims ++ wire_strings x.names) ++ (wire_strings x.cells ++ post))
              (rowidx (table_of x) i + j)))
          (replicate (x.rows * length x.names) unset, length (dims ++ wire_strings x.names))
        ≡ some (map c_string x.cells, length (wire_table x))
    unfolding dims
    read_fields =
        let total : length (dims ++ wire_strings x.names) + length (wire_strings x.cells)
            ≡ length (wire_table x) =
          omega (arith, length-wire_table x) in
        for_loop-rows (table_of x) _ _ f.no_wrap
        ∙ read_array x.cells (dims ++ wire_strings x.names) post (x.rows * length x.names)
            f.cells_texts (sym f.full) (omega (arith, total, f.size_u32))
        ∙ rw total

    -- Whatever follows the format of a table, the reader builds the table of its texts from it and
    -- stops behind it.
    pub get_table-wire_table :
        get_table junk (wire_table x ++ post) ≡ some (table_of x, length (wire_table x))
    unfolding get_table wire_table dims
    get_table-wire_table =
        rw
          (
            join16 x.rows f.rows_u16,
            join16 (length x.names) f.cols_u16,
            append_assoc (wire_strings x.names) (wire_strings x.cells) post,
          )
          (rw read_names (rw read_fields))
