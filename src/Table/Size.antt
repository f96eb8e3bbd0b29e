-- ===== src/Table/Size.antt =====
-- The size computed for a table is the length of what the writer emits.
use fritz2ci.Prelude.{
  ℕ, ◌+◌, ◌*◌, ◌<◌, ◌≡◌, ap, sym, subst, refl, Option, some, List, [], ◌∷◌, ◌++◌, length,
  length-append, append_assoc, append-nil, arith,
}
use fritz2ci.Prelude.Loop.{for_loop}
use fritz2ci.Memory.{Bytes}
use fritz2ci.Memory.Emits.{load_lem}
use fritz2ci.Strings.{StrPtr, Points, Holds}
use fritz2ci.Strings.RoundTrip.{
  length_bytes, wire_string, length-wire_string, len_or_zero-Holds, cut_strlen-Points,
}
use fritz2ci.Table.{Table, count_string, count_name, count_field, table_get_size}
use fritz2ci.Table.Layout.{
  Each, wire_strings, Texts, wire_table, length-wire_table, Fits, Represents, Represents-area,
  Represents-small, for_loop-rows,
}
use native.Mathlib.Nat.{add-zero, add_assoc}

count_string_lem :
    (t : Bytes) (bytes : ℕ)
    → bytes + length (wire_string t) < 4294967296
    → count_string bytes (length t) ≡ bytes + length (wire_string t)
unfolding count_string length_bytes
count_string_lem t bytes h = ground (arith, length-wire_string t)

count_name_lem :
    (p : StrPtr) (t : Bytes) (pre tail : List StrPtr) (k bytes : ℕ)
    → Points p t
    → k ≡ length pre
    → bytes + length (wire_string t) < 4294967296
    → count_name (pre ++ (p ∷ tail)) k bytes ≡ some (bytes + length (wire_string t))
unfolding count_name
count_name_lem p t pre tail k bytes h ek small =
    rw (load_lem pre tail p k ek)
      (rw (cut_strlen-Points p t h) (ap some (count_string_lem t bytes small)))

count_field_lem :
    (p : StrPtr) (t : Bytes) (pre tail : List StrPtr) (k bytes : ℕ)
    → Holds p t
    → k ≡ length pre
    → bytes + length (wire_string t) < 4294967296
    → count_field (pre ++ (p ∷ tail)) k bytes ≡ some (bytes + length (wire_string t))
unfolding count_field
count_field_lem p t pre tail k bytes h ek small =
    rw (load_lem pre tail p k ek)
      (rw (len_or_zero-Holds p t h).0 (ap some (count_string_lem t bytes small)))

-- A loop that counts the strings of an array, whichever counter it uses.
module _ (R : StrPtr → Bytes → Type 0) (count : List StrPtr → ℕ → ℕ → Option ℕ)
    (count_lem : (p : StrPtr) (t : Bytes) (pre tail : List StrPtr) (k bytes : ℕ)
      → R p t
      → k ≡ length pre
      → bytes + length (wire_string t) < 4294967296
      → count (pre ++ (p ∷ tail)) k bytes ≡ some (bytes + length (wire_string t))) where
  count_cells :
      (ps : List StrPtr) (ts : List Bytes) (pre tail : List StrPtr) (n k bytes : ℕ)
      → Each R ps ts
      → n ≡ length ts
      → k ≡ length pre
      → bytes + length (wire_strings ts) < 4294967296
      → for_loop n k (count (pre ++ (ps ++ tail))) bytes ≡ some (bytes + length (wire_strings ts))
  unfolding for_loop
  count_cells [] [] pre tail n k bytes h en ek small = rw (en, add-zero)
  count_cells [] (t ∷ ts) pre tail n k bytes h en ek small = elim h [ ]
  count_cells (p ∷ ps) [] pre tail n k bytes h en ek small = elim h [ ]
  count_cells (p ∷ ps) (t ∷ ts) pre tail n k bytes (hp, hs) en ek small =
      let total : length (wire_strings (t ∷ ts))
          ≡ length (wire_string t) + length (wire_strings ts) =
        length-append (wire_string t) (wire_strings ts) in
      let rest =
        count_cells ps ts (pre ++ p ∷ []) tail (length ts) (k + 1) (bytes + length (wire_string t))
          hs refl (omega (arith, length-append pre (p ∷ []))) (omega arith) in
      let first = count_lem p t pre (ps ++ tail) k bytes hp ek (omega arith) in
      rw en (rw first (rw total (simp (append_assoc, add_assoc) at rest)))

  count_array :
      (ps : List StrPtr) (ts : List Bytes) (n bytes : ℕ)
      → Each R ps ts
      → n ≡ length ts
      → bytes + length (wire_strings ts) < 4294967296
      → for_loop n 0 (count ps) bytes ≡ some (bytes + length (wire_strings ts))
  count_array ps ts n bytes h en small =
      subst (λ a. for_loop n 0 (count a) bytes ≡ some (bytes + length (wire_strings ts)))
        (append-nil ps) (count_cells ps ts [] [] n 0 bytes h en refl small)

-- For a table whose texts fit, the size computed is the length of the format, with no wrap.
pub table_get_size-Represents :
    (t : Table) (x : Texts)
    → Represents t x
    → Fits x
    → table_get_size (some t) ≡ some (length (wire_table x))
unfolding table_get_size
table_get_size-Represents t x r f =
    let names =
      count_array Points count_name count_name_lem t.column_names x.names t.ncols 4 r.names r.ncols
        (omega (arith, length-wire_table x, f.size_u32)) in
    let fields =
      count_array Holds count_field count_field_lem t.fields x.cells (t.nrows * t.ncols)
        (4 + length (wire_strings x.names)) r.cells (Represents-area r f)
        (omega (arith, length-wire_table x, f.size_u32)) in
    rw names (
      rw
        (for_loop-rows t (count_field t.fields) (4 + length (wire_strings x.names))
          (Represents-small r f))
        (rw fields (ap some (sym (length-wire_table x)))))
