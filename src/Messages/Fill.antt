-- ===== src/Messages/Fill.antt =====
-- The data that the writer writes for a body is its documented format, and fills the object.
use fritz2ci.Prelude.{
  ℕ, ◌+◌, ◌<◌, ◌≡◌, refl, ap, ◌∙◌, some, List, [], ◌∷◌, ◌++◌, length, eq-tabulate, ◌==◌,
  if◌then◌else◌, inl, inr, arith,
}
use fritz2ci.Memory.{Bytes}
use fritz2ci.Wire.{le16, le32}
use fritz2ci.Strings.{StrPtr, write_string}
use fritz2ci.Strings.RoundTrip.{wire_string, write_string-Emits}
use fritz2ci.Table.{put_table}
use fritz2ci.Table.Layout.{Texts, Fits, Represents, AllHold, wire_strings, wire_table}
use fritz2ci.Table.Write.{put_table-Emits}
use fritz2ci.Messages.{Command, subcmd_query, subcmd_resp, Message}
use fritz2ci.Messages.Write.{
  write_query, write_resp, write_data, write_rows, write_list, write_number, write_at, write_listed,
  write_strings,
}
use fritz2ci.Messages.Body.{
  Body, register_query, show_tables_query, list_info_query, caller_list_query, read_caller_query,
  write_caller_query, write_call_query, call_list_query, describe_table_query, delete_caller_query,
  listen_query, register_resp, caller_list_resp, read_caller_resp, call_list_resp,
  write_caller_resp, write_call_resp, list_info_resp, show_tables_resp, describe_table_resp,
  delete_caller_resp, listen_resp, command_of, subcmd_of, wire_body, Valid,
}
use fritz2ci.Messages.RoundTrip.{subcmd_of_cases, IsList-pair}
use fritz2ci.Messages.Says.{Args}
use fritz2ci.Messages.Emit.{
  Fills, write_at_lem, write_listed_lem, after_ushort, after_ushorts, write_strings_lem,
}

Fills-rows :
    (m : Message) (e : ℕ) (x : Texts)
    → m.errcode ≡ e
    → Represents m.table x
    → Fits x
    → Fills (write_rows m) (le16 e ++ wire_table x)
unfolding write_rows
Fills-rows m e x he r f msg len =
    after_ushort m.errcode (wire_table x) (write_at 2 (put_table m.table))
      (λ rest h.
        write_at_lem (le16 m.errcode) (wire_table x) rest 2 (put_table m.table) _
          (put_table-Emits m.table x r f) refl h)
      msg len
    ∙ (λ i. some (le16 (he i) ++ wire_table x))

Fills-number :
    (m : Message) (e n k : ℕ) → m.errcode ≡ e → k ≡ n → Fills (write_number m k) (le16 e ++ le32 n)
unfolding write_number
Fills-number m e n k he hn msg len =
    rw (eq-tabulate 6 msg 0 len) (λ i. some (le16 (he i) ++ le32 (hn i)))

Fills-list :
    (m : Message) (e : ℕ) (l : List Bytes) (ps : List StrPtr)
    → m.errcode ≡ e
    → m.nstrings ≡ length l
    → m.stringlist ≡ some ps
    → AllHold ps l
    → length (wire_strings l) + 4 < 4294967296
    → Fills (write_list m) (le16 e ++ (le16 (length l) ++ wire_strings l))
unfolding write_list
Fills-list m e l ps he hn hl h small msg len = rw hl (
    after_ushorts m.errcode m.nstrings (wire_strings l)
      (λ d. write_strings (some ps) m.nstrings d 4)
      (λ rest hr.
        write_strings_lem ps l (le16 m.errcode ++ le16 m.nstrings) rest m.nstrings 4 h hn refl hr
          (omega arith))
      msg len
    ∙ (λ i. some (le16 (he i) ++ (le16 (hn i) ++ wire_strings l))))

write_data-query :
    (c : Command) (m : Message) (msg : Bytes)
    → m.subcmd ≡ subcmd_query
    → write_data c m msg ≡ write_query c m msg
unfolding write_data
write_data-query c m msg e =
    ap (λ s. if s == subcmd_query then write_query c m msg else write_resp c m msg) e

write_data-resp :
    (c : Command) (m : Message) (msg : Bytes)
    → m.subcmd ≡ subcmd_resp
    → write_data c m msg ≡ write_resp c m msg
unfolding write_data
write_data-resp c m msg e =
    ap (λ s. if s == subcmd_query then write_query c m msg else write_resp c m msg) e

-- The queries fill their data with the documented format.
Fills-query :
    (b : Body) (m : Message)
    → Args m b
    → Valid b
    → subcmd_of b ≡ subcmd_query
    → Fills (write_query (command_of b) m) (wire_body b)
unfolding write_query
Fills-query register_query m a v es msg len = rw (eq-tabulate 0 msg 0 len)
Fills-query show_tables_query m a v es msg len = rw (eq-tabulate 0 msg 0 len)
Fills-query list_info_query m a v es msg len = rw (eq-tabulate 0 msg 0 len)
Fills-query (caller_list_query u t) m (hu, ht) v es msg len =
    after_ushort m.userid (wire_string t) (write_listed 2 m.stringlist)
      (λ rest h. write_listed_lem m.stringlist t (le16 m.userid) rest 2 ht refl h) msg len
    ∙ (λ i. some (le16 (hu i) ++ wire_string t))
Fills-query (read_caller_query u f t) m (hu, hf, ht) v es msg len =
    after_ushorts m.userid m.flags (wire_string t) (write_listed 4 m.stringlist)
      (λ rest h. write_listed_lem m.stringlist t (le16 m.userid ++ le16 m.flags) rest 4 ht refl h)
      msg len
    ∙ (λ i. some (le16 (hu i) ++ (le16 (hf i) ++ wire_string t)))
Fills-query (write_caller_query u f x) m (hu, hf, r) v es msg len =
    after_ushorts m.userid m.flags (wire_table x) (write_at 4 (put_table m.table))
      (λ rest h.
        write_at_lem (le16 m.userid ++ le16 m.flags) (wire_table x) rest 4 (put_table m.table) _
          (put_table-Emits m.table x r v.2) refl h)
      msg len
    ∙ (λ i. some (le16 (hu i) ++ (le16 (hf i) ++ wire_table x)))
Fills-query (write_call_query x) m r v es msg len =
    write_at_lem [] (wire_table x) msg 0 (put_table m.table) _ (put_table-Emits m.table x r v) refl
      len
Fills-query (call_list_query o c) m (ho, hc) v es msg len =
    rw (eq-tabulate 6 msg 0 len) (λ i. some (le32 (ho i) ++ le16 (hc i)))
Fills-query (describe_table_query t) m (p, ps, hl, h) v es msg len =
    rw hl
      (write_at_lem [] (wire_string t) msg 0 (write_string p) _ (write_string-Emits p t h) refl len)
Fills-query (delete_caller_query u t n) m (p, q, hu, hn, hl, hp, hq) v es msg len = rw hl (
    after_ushorts m.userid m.nstrings (wire_strings (t ∷ n ∷ []))
      (λ d. write_strings (some (p ∷ q ∷ [])) m.nstrings d 4)
      (λ rest hr.
        write_strings_lem (p ∷ q ∷ []) (t ∷ n ∷ []) (le16 m.userid ++ le16 m.nstrings) rest
          m.nstrings 4 (hp, (hq, tt)) hn refl hr (omega (arith, (IsList-pair t n v.1 v.2).2)))
      msg len
    ∙ (λ i. some (le16 (hu i) ++ (le16 (hn i) ++ wire_strings (t ∷ n ∷ [])))))
Fills-query (listen_query k) m a v es msg len =
    rw (eq-tabulate 4 msg 0 len) (λ i. some (le32 (a i)))
Fills-query (register_resp e c) m a v es msg len = absurd (omega arith)
Fills-query _ m a v es msg len = absurd (omega arith)

-- So do the responses.
Fills-resp :
    (b : Body) (m : Message)
    → Args m b
    → Valid b
    → subcmd_of b ≡ subcmd_resp
    → Fills (write_resp (command_of b) m) (wire_body b)
unfolding write_resp
Fills-resp (register_resp e c) m (he, hc) v es msg len =
    rw (eq-tabulate 4 msg 0 len) (λ i. some (le16 (he i) ++ le16 (hc i)))
Fills-resp (caller_list_resp e x) m a v es msg len = Fills-rows m e x a.0 a.1 v.1 msg len
Fills-resp (read_caller_resp e x) m a v es msg len = Fills-rows m e x a.0 a.1 v.1 msg len
Fills-resp (call_list_resp e x) m a v es msg len = Fills-rows m e x a.0 a.1 v.1 msg len
Fills-resp (write_caller_resp e n) m a v es msg len = Fills-number m e n m.index a.0 a.1 msg len
Fills-resp (write_call_resp e n) m a v es msg len = Fills-number m e n m.index a.0 a.1 msg len
Fills-resp (list_info_resp e n) m a v es msg len = Fills-number m e n m.maxentries a.0 a.1 msg len
Fills-resp (show_tables_resp e l) m (ps, he, hn, hl, h) v es msg len =
    Fills-list m e l ps he hn hl h v.1.2 msg len
Fills-resp (describe_table_resp e l) m (ps, he, hn, hl, h) v es msg len =
    Fills-list m e l ps he hn hl h v.1.2 msg len
Fills-resp (delete_caller_resp e) m a v es msg len =
    rw (eq-tabulate 2 msg 0 len) (λ i. some (le16 (a i)))
Fills-resp (listen_resp e) m a v es msg len = rw (eq-tabulate 2 msg 0 len) (λ i. some (le16 (a i)))
Fills-resp _ m a v es msg len = absurd (omega arith)

pub Fills-body :
    (b : Body) (m : Message)
    → Args m b
    → Valid b
    → m.subcmd ≡ subcmd_of b
    → Fills (write_data (command_of b) m) (wire_body b)
Fills-body b m a v es msg len = elim (subcmd_of_cases b) [
  | inl query ↦
      write_data-query (command_of b) m msg (es ∙ query) ∙ Fills-query b m a v query msg len
  | inr resp ↦ write_data-resp (command_of b) m msg (es ∙ resp) ∙ Fills-resp b m a v resp msg len
]
