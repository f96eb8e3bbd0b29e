-- ===== src/Table/Layout.antt =====
-- A table as texts: which tables hold them, and the format.
use fritz2ci.Prelude.{
  ℕ, zero, suc, ◌+◌, ◌*◌, ◌%◌, ◌∙◌, ◌≤◌, ◌<◌, ◌≡◌, sym, List, [], ◌∷◌, ◌++◌, map, length,
  length-append, All, arith, Option,
}
use fritz2ci.Prelude.Loop.{for_loop, for_loop_congr, for_loop_nest}
use fritz2ci.Memory.{Bytes}
use fritz2ci.Wire.{le16, IsU16}
use fritz2ci.Strings.{StrPtr, unset, null, object, IsText, Points, Holds, c_string}
use fritz2ci.Strings.RoundTrip.{wire_string}
use fritz2ci.Table.{Table, rowidx}

-- Pointers and texts that are related one by one.
abbrev pub Each : (StrPtr → Bytes → Type 0) → List StrPtr → List Bytes → Type 0
Each R [] [] = Unit
Each R (p ∷ ps) (t ∷ ts) = R p t × Each R ps ts
Each R _ _ = ⊥

-- The strings at the pointers are these texts; none of the pointers is NULL.
abbrev pub AllPoint : List StrPtr → List Bytes → Type 0
AllPoint = Each Points

-- The same, where NULL stands for the empty text.
abbrev pub AllHold : List StrPtr → List Bytes → Type 0
AllHold = Each Holds

pub Holds-Points : (p : StrPtr) (t : Bytes) → Points p t → Holds p t
Holds-Points unset t h = elim h [ ]
Holds-Points null t h = elim h [ ]
Holds-Points (object s) t h = h

pub AllHold-AllPoint : (ps : List StrPtr) (ts : List Bytes) → AllPoint ps ts → AllHold ps ts
AllHold-AllPoint [] [] h = tt
AllHold-AllPoint [] (t ∷ ts) h = elim h [ ]
AllHold-AllPoint (p ∷ ps) [] h = elim h [ ]
AllHold-AllPoint (p ∷ ps) (t ∷ ts) (h, hs) = (Holds-Points p t h, AllHold-AllPoint ps ts hs)

abbrev pub wire_strings : List Bytes → Bytes
wire_strings [] = []
wire_strings (t ∷ ts) = wire_string t ++ wire_strings ts

-- The texts of a table: the names of its columns, and its fields row by row.
pub record Texts : Type 0 where
  pub rows : ℕ
  pub names : List Bytes
  pub cells : List Bytes

unfoldable pub wire_table : Texts → Bytes
wire_table x =
    le16 x.rows ++ (le16 (length x.names) ++ (wire_strings x.names ++ wire_strings x.cells))

pub length-wire_table :
    (x : Texts)
    → length (wire_table x) ≡ 4 + length (wire_strings x.names) + length (wire_strings x.cells)
unfolding wire_table
length-wire_table x = omega (arith, length-append (wire_strings x.names) (wire_strings x.cells))

-- The texts fit a table: `rowidx` does not wrap in it, nor do the offsets.
pub record Fits (x : Texts) : Type 0 where
  pub rows_u16 : IsU16 x.rows
  pub cols_u16 : IsU16 (length x.names)
  pub full : length x.cells ≡ x.rows * length x.names
  pub no_wrap : x.rows * length x.names ≤ 65536
  pub size_u32 : length (wire_table x) < 4294967296
  pub names_texts : All IsText x.names
  pub cells_texts : All IsText x.cells

-- The table in memory that the writers are given.
pub record Represents (t : Table) (x : Texts) : Type 0 where
  pub nrows : t.nrows ≡ x.rows
  pub ncols : t.ncols ≡ length x.names
  pub names : AllPoint t.column_names x.names
  pub cells : AllHold t.fields x.cells

-- The table that the reader builds.
abbrev pub table_of : Texts → Table
table_of x = record {
  nrows = x.rows;
  ncols = length x.names;
  column_names = map c_string x.names;
  fields = map c_string x.cells;
}

rowidx_exact : (k rows cols : ℕ) → k < rows → rows * cols ≤ 65536 → k * cols % 65536 ≡ k * cols
rowidx_exact k rows zero h n = omega arith
rowidx_exact k rows (suc c) h n =
    let below : suc k * suc c ≤ rows * suc c = grind arith in omega arith

-- While `rowidx` does not wrap, the loop over rows and columns is one loop over the fields.
pub for_loop-rows {ℓ} :
    {S : Type ℓ} (t : Table) (body : ℕ → S → Option S) (s : S)
    → t.nrows * t.ncols ≤ 65536
    → for_loop t.nrows 0 (λ i. for_loop t.ncols 0 (λ j. body (rowidx t i + j))) s
      ≡ for_loop (t.nrows * t.ncols) 0 body s
for_loop-rows t body s h =
    for_loop_congr t.nrows 0 (λ i. for_loop t.ncols 0 (λ j. body (rowidx t i + j)))
      (λ i. for_loop t.ncols 0 (λ j. body (i * t.ncols + j)))
      (λ k lo hi s'. rw (rowidx_exact k t.nrows t.ncols (omega arith) h)) s
    ∙ rw (for_loop_nest t.nrows t.ncols 0 body s) (let z : 0 * t.ncols ≡ 0 = omega arith in rw z)

-- The loop visits as many fields as there are.
pub Represents-area :
    {t : Table} {x : Texts} → Represents t x → Fits x → t.nrows * t.ncols ≡ length x.cells
Represents-area r f = (λ i. r.nrows i * r.ncols i) ∙ sym f.full

pub Represents-small : {t : Table} {x : Texts} → Represents t x → Fits x → t.nrows * t.ncols ≤ 65536
Represents-small r f = omega (arith, Represents-area r f, f.full, f.no_wrap)
