-- ===== src/Messages/Sizes.antt =====
-- The first `switch` computes the length of the documented format.
use fritz2ci.Prelude.{
  ℕ, ◌+◌, ◌-◌, ◌<◌, ◌≡◌, refl, ap, ◌∙◌, Option, some, List, [], ◌∷◌, ◌++◌, length, length-append,
  ◌==◌, if◌then◌else◌, ◌>>=◌, arith,
}
use fritz2ci.Memory.{Bytes}
use fritz2ci.Strings.{StrPtr, Holds, IsText}
use fritz2ci.Strings.RoundTrip.{wire_string, length-wire_string_le}
use fritz2ci.Table.Layout.{Texts, Fits, Represents, AllHold, wire_strings, wire_table}
use fritz2ci.Table.Size.{table_get_size-Represents}
use fritz2ci.Messages.{subcmd_query, subcmd_resp, Message}
use fritz2ci.Messages.Write.{sized, on_subcmd, add_listed, add_strings, table_after, data_size}
use fritz2ci.Messages.Body.{
  Body, register_query, show_tables_query, list_info_query, caller_list_query, read_caller_query,
  write_caller_query, write_call_query, call_list_query, describe_table_query, delete_caller_query,
  listen_query, register_resp, caller_list_resp, read_caller_resp, call_list_resp,
  write_caller_resp, write_call_resp, list_info_resp, show_tables_resp, describe_table_resp,
  delete_caller_resp, listen_resp, command_of, subcmd_of, wire_body, Valid, FirstHolds,
}
use fritz2ci.Messages.Says.{Args}
use fritz2ci.Messages.Emit.{add_listed_lem, add_string_lem, add_strings_lem, length-wire_string_pos}

table_after_lem :
    (m : Message) (x : Texts) (n : ℕ)
    → Represents m.table x
    → Fits x
    → n + length (wire_table x) < 4294967296
    → table_after n m ≡ some (n + length (wire_table x))
unfolding table_after
table_after_lem m x n r f small =
    rw (table_get_size-Represents m.table x r f) (ap some (omega arith))

on_subcmd-query :
    (s n : ℕ) (q r : Option ℕ) → s ≡ subcmd_query → q ≡ some n → on_subcmd s q r ≡ some (sized n)
unfolding on_subcmd
on_subcmd-query s n q r es eq = rw (es, eq)

on_subcmd-resp :
    (s n : ℕ) (q r : Option ℕ) → s ≡ subcmd_resp → r ≡ some n → on_subcmd s q r ≡ some (sized n)
unfolding on_subcmd
on_subcmd-resp s n q r es er = rw (es, er)

list_size :
    (m : Message) (l : List Bytes) (ps : List StrPtr)
    → m.nstrings ≡ length l
    → m.stringlist ≡ some ps
    → AllHold ps l
    → length (wire_strings l) + 4 < 4294967296
    → add_strings m.stringlist m.nstrings 4 ≡ some (4 + length (wire_strings l))
list_size m l ps hn hl h small =
    ap (λ o. add_strings o m.nstrings 4) hl ∙ add_strings_lem ps l m.nstrings 4 h hn (omega arith)

-- A query with one string: the size counts the length byte of the string.
first_size :
    (l : Option (List StrPtr)) (t : Bytes) (n k : ℕ)
    → FirstHolds l t
    → IsText t
    → n ≡ k + 1
    → k < 10
    → add_listed l 0 n ≡ some (k + length (wire_string t))
first_size l t n k h ht en hk =
    add_listed_lem l t n h (omega (arith, length-wire_string_le t, ht.1)) ∙ ap some (omega arith)

two_strings :
    (t n : Bytes)
    → length (wire_strings (t ∷ n ∷ [])) ≡ length (wire_string t) + length (wire_string n)
two_strings t n =
    omega
      (arith, length-append (wire_string t) (wire_string n ++ []), length-append (wire_string n) [])

pair_size :
    (l : Option (List StrPtr)) (p q : StrPtr) (t n : Bytes)
    → l ≡ some (p ∷ q ∷ [])
    → Holds p t
    → Holds q n
    → IsText t
    → IsText n
    → (add_listed l 0 6 >>= λ k. add_listed l 1 k) ≡ some (4 + length (wire_strings (t ∷ n ∷ [])))
unfolding add_listed
pair_size l p q t n hl hp hq ht hn =
    let k : ℕ = 6 + length (wire_string t) - 1 in
    let pos = length-wire_string_pos t in
    let small_t = length-wire_string_le t in
    let small_n = length-wire_string_le n in
    rw hl (
      rw (add_string_lem p t 6 hp (omega (arith, ht.1))) (
        add_string_lem q n k hq (omega (arith, ht.1, hn.1))
        ∙ ap some (omega (arith, two_strings t n, length-wire_string_pos n))))

pub data_size_lem :
    (b : Body) (m : Message)
    → Args m b
    → Valid b
    → m.subcmd ≡ subcmd_of b
    → length (wire_body b) < 4294967296
    → data_size (command_of b) m ≡ some (sized (length (wire_body b)))
unfolding data_size
data_size_lem register_query m a v es small = on_subcmd-query m.subcmd 0 (some 0) (some 4) es refl
data_size_lem show_tables_query m a v es small =
    on_subcmd-query m.subcmd 0 (some 0) (add_strings m.stringlist m.nstrings 4) es refl
data_size_lem list_info_query m a v es small = on_subcmd-query m.subcmd 0 (some 0) (some 6) es refl
data_size_lem (caller_list_query u t) m a v es small =
    on_subcmd-query m.subcmd _ (add_listed m.stringlist 0 3) (table_after 2 m) es
      (first_size m.stringlist t 3 2 a.1 v.1 (omega arith) (omega arith) ∙ ap some (omega arith))
data_size_lem (read_caller_query u f t) m a v es small =
    on_subcmd-query m.subcmd _ (add_listed m.stringlist 0 5) (table_after 2 m) es
      (first_size m.stringlist t 5 4 a.2 v.2 (omega arith) (omega arith) ∙ ap some (omega arith))
data_size_lem (write_caller_query u f x) m a v es small =
    on_subcmd-query m.subcmd _ (table_after 4 m) (some 6) es
      (table_after_lem m x 4 a.2 v.2 (omega arith) ∙ ap some (omega arith))
data_size_lem (write_call_query x) m a v es small =
    on_subcmd-query m.subcmd _ (table_after 0 m) (some 6) es
      (table_after_lem m x 0 a v (omega arith) ∙ ap some (omega arith))
data_size_lem (call_list_query o c) m a v es small =
    on_subcmd-query m.subcmd 6 (some 6) (table_after 2 m) es refl
data_size_lem (describe_table_query t) m (p, ps, hl, h) v es small =
    on_subcmd-query m.subcmd _ (add_listed m.stringlist 0 1) (add_strings m.stringlist m.nstrings 4)
      es
      (ap (λ l. add_listed l 0 1) hl
        ∙ first_size (some (p ∷ ps)) t 1 0 h v (omega arith) (omega arith)
        ∙ ap some (omega arith))
data_size_lem (delete_caller_query u t n) m (p, q, hu, hn, hl, hp, hq) v es small =
    on_subcmd-query m.subcmd _ (add_listed m.stringlist 0 6 >>= λ k. add_listed m.stringlist 1 k)
      (some 2) es (pair_size m.stringlist p q t n hl hp hq v.1 v.2 ∙ ap some (omega arith))
data_size_lem (listen_query k) m a v es small =
    ap (λ s. if s == subcmd_query then some (sized 4) else some (sized 2)) es
data_size_lem (register_resp e c) m a v es small =
    on_subcmd-resp m.subcmd 4 (some 0) (some 4) es refl
data_size_lem (caller_list_resp e x) m a v es small =
    on_subcmd-resp m.subcmd _ (add_listed m.stringlist 0 3) (table_after 2 m) es
      (table_after_lem m x 2 a.1 v.1 (omega arith) ∙ ap some (omega arith))
data_size_lem (read_caller_resp e x) m a v es small =
    on_subcmd-resp m.subcmd _ (add_listed m.stringlist 0 5) (table_after 2 m) es
      (table_after_lem m x 2 a.1 v.1 (omega arith) ∙ ap some (omega arith))
data_size_lem (call_list_resp e x) m a v es small =
    on_subcmd-resp m.subcmd _ (some 6) (table_after 2 m) es
      (table_after_lem m x 2 a.1 v.1 (omega arith) ∙ ap some (omega arith))
data_size_lem (write_caller_resp e n) m a v es small =
    on_subcmd-resp m.subcmd 6 (table_after 4 m) (some 6) es refl
data_size_lem (write_call_resp e n) m a v es small =
    on_subcmd-resp m.subcmd 6 (table_after 0 m) (some 6) es refl
data_size_lem (list_info_resp e n) m a v es small =
    on_subcmd-resp m.subcmd 6 (some 0) (some 6) es refl
data_size_lem (show_tables_resp e l) m (ps, he, hn, hl, h) v es small =
    on_subcmd-resp m.subcmd _ (some 0) (add_strings m.stringlist m.nstrings 4) es
      (list_size m l ps hn hl h v.1.2 ∙ ap some (omega arith))
data_size_lem (describe_table_resp e l) m (ps, he, hn, hl, h) v es small =
    on_subcmd-resp m.subcmd _ (add_listed m.stringlist 0 1) (add_strings m.stringlist m.nstrings 4)
      es (list_size m l ps hn hl h v.1.2 ∙ ap some (omega arith))
data_size_lem (delete_caller_resp e) m a v es small =
    on_subcmd-resp m.subcmd 2 (add_listed m.stringlist 0 6 >>= λ k. add_listed m.stringlist 1 k)
      (some 2) es refl
data_size_lem (listen_resp e) m a v es small =
    ap (λ s. if s == subcmd_query then some (sized 4) else some (sized 2)) es
