-- ===== src/Table/RoundTrip.antt =====
-- The size, the writer and the reader of a table together (cidbmessages.c).
use fritz2ci.Prelude.{ℕ, ◌≡◌, sym, ap, ◌∙◌, some, ◌++◌, length}
use fritz2ci.Memory.{Bytes}
use fritz2ci.Table.{Table, table_get_size, write_table, read_table}
use fritz2ci.Table.Layout.{Texts, wire_table, Fits, Represents, table_of}
use fritz2ci.Table.Size.{table_get_size-Represents}
use fritz2ci.Table.Write.{put_table-Emits}
use fritz2ci.Table.Read.{get_table-wire_table}

-- For a table in memory whose texts fit: the computed size is the length of the documented format;
-- written to a buffer with that much room, `mid`, the format replaces exactly these bytes and what
-- stands behind them stays; and the reader builds the same table from it, each NULL field as an
-- empty text, with no access out of bounds.
pub read_table-write_table :
    (junk : ℕ → ℕ) (t old : Table) (x : Texts) (mid post : Bytes)
    → Represents t x
    → Fits x
    → length mid ≡ length (wire_table x)
    → (table_get_size (some t) ≡ some (length mid))
      × (write_table (some (mid ++ post)) (some t) ≡ some (some (wire_table x ++ post), length mid))
      × (read_table junk (some (wire_table x ++ post)) (some old)
          ≡ some (some (table_of x), length mid))
unfolding write_table read_table
read_table-write_table junk t old x mid post r f e = (
  table_get_size-Represents t x r f ∙ ap some (sym e),
  rw (put_table-Emits t x r f mid post e, e),
  rw (get_table-wire_table junk x f post, e),
)
