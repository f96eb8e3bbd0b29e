-- ===== src/Table.antt =====
-- The tables of cidbmessages.c: CIDBTable, its size, its writer and its reader. Counters of rows
-- and columns are `unsigned short` and end below 65536; `rowidx` is one too and wraps.
pub mod Layout
pub mod Size
pub mod Write
pub mod Read
pub mod RoundTrip
use fritz2ci.Prelude.{
  ℕ, ◌+◌, ◌*◌, ◌%◌, ◌≤◌, ◌<◌, ◌≡◌, Bool, true, Option, none, some, List, [], ◌∷◌, replicate, length,
  leb, if◌then◌else◌, ◌>>=◌,
}
use fritz2ci.Prelude.Loop.{for_loop}
use fritz2ci.Memory.{Bytes, load, store, advance, under, copy, clear}
use fritz2ci.Wire.{set_ushort, get_ushort, add32, IsU16}
use fritz2ci.Strings.{
  StrPtr, unset, null, object, cut_strlen, len_or_zero, pointee, msg_strlen, set_strlen, read_str,
}

-- An array that was never allocated is empty.
pub record Table : Type 0 where
  pub nrows : ℕ
  pub ncols : ℕ
  pub column_names : List StrPtr
  pub fields : List StrPtr

abbrev pub no_table : Table
no_table = record { nrows = 0; ncols = 0; column_names = []; fields = [] }

-- `i*table->ncols`, cut to `unsigned short`; that a product from 2^31 on overflows an `int`, which C
-- leaves undefined, is left out.
abbrev pub rowidx : Table → ℕ → ℕ
rowidx t i = i * t.ncols % 65536

-- `len >= 255 ? bytes += 3 : bytes++; bytes += len;`
unfoldable pub count_string : ℕ → ℕ → ℕ
count_string bytes len = add32 (add32 bytes (if leb 255 len then 3 else 1)) len

unfoldable pub count_name : List StrPtr → ℕ → ℕ → Option ℕ
unfolding load cut_strlen count_string
count_name names j bytes = do p ← load names j; len ← cut_strlen p; some (count_string bytes len)

unfoldable pub count_field : List StrPtr → ℕ → ℕ → Option ℕ
unfolding load len_or_zero count_string
count_field fields k bytes = do
  p ← load fields k
  len ← len_or_zero p
  some (count_string bytes len)

-- cidbmsg_table_get_size; a NULL table is `none`.
unfoldable pub table_get_size : Option Table → Option ℕ
unfolding for_loop count_name count_field
table_get_size none = some 0
table_get_size (some t) = do
  bytes ← for_loop t.ncols 0 (count_name t.column_names) 4
  for_loop t.nrows 0 (λ i. for_loop t.ncols 0 (λ j. count_field t.fields (rowidx t i + j))) bytes

-- `if (p) memcpy(&msg[bytes], p, len);`
unfoldable pub copy_if_set : StrPtr → ℕ → Bytes → ℕ → Option Bytes
unfolding copy pointee
copy_if_set null len msg bytes = some msg
copy_if_set p len msg bytes = copy len msg bytes (pointee p) 0

-- One string of the table, of a column name or of a field: the state is the buffer and `bytes`.
unfoldable pub write_cell : List StrPtr → ℕ → Bytes × ℕ → Option (Bytes × ℕ)
unfolding load len_or_zero under set_strlen copy_if_set
write_cell cells k (msg, bytes) = do
  p ← load cells k
  len ← len_or_zero p
  (msg₁, n) ← under bytes (set_strlen len) msg
  msg₂ ← copy_if_set p len msg₁ (add32 bytes n)
  some (msg₂, add32 (add32 bytes n) len)

-- cidbmsg_write_table where neither pointer is NULL.
unfoldable pub put_table : Table → Bytes → Option (Bytes × ℕ)
unfolding set_ushort for_loop write_cell
put_table t msg = do
  m₁ ← set_ushort msg 0 t.nrows
  m₂ ← set_ushort m₁ 2 t.ncols
  s ← for_loop t.ncols 0 (write_cell t.column_names) (m₂, 4)
  for_loop t.nrows 0 (λ i. for_loop t.ncols 0 (λ j. write_cell t.fields (rowidx t i + j))) s

unfoldable pub write_table : Option Bytes → Option Table → Option (Option Bytes × ℕ)
unfolding put_table clear
write_table none table = some (none, 0)
write_table (some msg) none = do msg' ← clear 4 msg; some (some msg', 4)
write_table (some msg) (some t) = do (msg', n) ← put_table t msg; some (some msg', n)

module _ (junk : ℕ → ℕ) where
  -- One string of the table is read into its place in the array.
  unfoldable pub read_cell : Bytes → ℕ → List StrPtr × ℕ → Option (List StrPtr × ℕ)
  unfolding advance msg_strlen read_str store
  read_cell msg k (cells, bytes) = do
    at_length ← advance bytes msg
    (len, n) ← msg_strlen at_length
    at_text ← advance (add32 bytes n) msg
    s ← read_str junk at_text len
    cells' ← store cells k s
    some (cells', add32 (add32 bytes n) len)

  -- cidbmsg_read_table where neither pointer is NULL: the table is cleared first.
  unfoldable pub get_table : Bytes → Option (Table × ℕ)
  unfolding get_ushort for_loop read_cell
  get_table msg = do
    nrows ← get_ushort msg 0
    ncols ← get_ushort msg 2
    let t : Table = record { nrows = nrows; ncols = ncols; column_names = []; fields = [] }
    (names, bytes) ← for_loop ncols 0 (read_cell msg) (replicate ncols unset, 4)
    (fields, bytes') ←
        for_loop nrows 0 (λ i. for_loop ncols 0 (λ j. read_cell msg (rowidx t i + j)))
          (replicate (nrows * ncols) unset, bytes)
    some (record { nrows = nrows; ncols = ncols; column_names = names; fields = fields }, bytes')

  unfoldable pub read_table : Option Bytes → Option Table → Option (Option Table × ℕ)
  unfolding get_table
  read_table none table = some (table, 0)
  read_table (some msg) none = some (none, 0)
  read_table (some msg) (some old) = do (t, n) ← get_table msg; some (some t, n)
