-- ===== src/Messages/RoundTrip.antt =====
-- The reader understands the documented formats.
use fritz2ci.Prelude.{
  ℕ, suc, false, ◌⊎◌, inl, inr, ◌+◌, ◌<◌, ◌≡◌, refl, ap, ◌∙◌, Option, none, some, List, [], ◌∷◌,
  ◌++◌, map, replicate, length, length-append, length-replicate, append_assoc, append-nil, All,
  ◌==◌, if◌then◌else◌, ◌>>=◌, arith,
}
use fritz2ci.Prelude.Loop.{for_loop}
use fritz2ci.Memory.{Bytes}
use fritz2ci.Memory.Emits.{advance_lem, store_lem}
use fritz2ci.Wire.{le16, add32}
use fritz2ci.Wire.RoundTrip.{join16, join32}
use fritz2ci.Strings.{StrPtr, unset, IsText, c_string}
use fritz2ci.Strings.RoundTrip.{wire_string, read_string-wire_string, length-wire_string_le}
use fritz2ci.Table.Layout.{Texts, Fits, wire_strings, wire_table, table_of}
use fritz2ci.Table.Read.{get_table-wire_table}
use fritz2ci.Messages.{
  Command, register, code, switch_on, subcmd_query, subcmd_resp, Message, Packet, region,
}
use fritz2ci.Messages.Read.{
  read_string_at, read_one, read_next, read_strings, read_rows, read_query, read_resp, read_parts,
  read_message,
}
use fritz2ci.Messages.Body.{
  Body, register_query, show_tables_query, list_info_query, caller_list_query, read_caller_query,
  write_caller_query, write_call_query, call_list_query, describe_table_query, delete_caller_query,
  listen_query, register_resp, caller_list_resp, read_caller_resp, call_list_resp,
  write_caller_resp, write_call_resp, list_info_resp, show_tables_resp, describe_table_resp,
  delete_caller_resp, listen_resp, command_of, subcmd_of, wire_body, Valid, IsList, listed,
  body_message, read_back,
}
use native.Mathlib.Nat.{add-zero, add_assoc}

pub suc-==-zero : (n : ℕ) → (suc n == 0) ≡ false
suc-==-zero n = ground arith

pub IsList-pair : (t n : Bytes) → IsText t → IsText n → IsList (t ∷ n ∷ [])
IsList-pair t n ht hn = (
  omega arith,
  (ht, (hn, tt)),
  omega (
    arith,
    length-append (wire_string t) (wire_string n ++ []),
    length-append (wire_string n) [],
    length-wire_string_le t,
    length-wire_string_le n,
    ht.1,
    hn.1,
  ),
)

module _ (junk : ℕ → ℕ) where
  read_string_at_lem :
      (t pre post : Bytes) (pos : ℕ)
      → length t < 65536
      → pos ≡ length pre
      → read_string_at junk (pre ++ (wire_string t ++ post)) pos
        ≡ some (c_string t, length (wire_string t))
  unfolding read_string_at
  read_string_at_lem t pre post pos h e =
      rw (advance_lem pre (wire_string t ++ post) pos e) (read_string-wire_string junk t post h)

  read_one_lem :
      (m : Message) (t pre : Bytes) (pos : ℕ)
      → IsText t
      → pos ≡ length pre
      → read_one junk m (pre ++ wire_string t) pos
        ≡ some (record m { nstrings = 1; stringlist = some (c_string t ∷ []) })
  unfolding read_one
  read_one_lem m t pre pos h e = rw (rw append-nil at (read_string_at_lem t pre [] pos h.1 e))

  read_rows_lem :
      (m : Message) (x : Texts) (pre : Bytes) (off : ℕ)
      → Fits x
      → off ≡ length pre
      → read_rows junk m (pre ++ wire_table x) off ≡ some (record m { table = table_of x })
  unfolding read_rows
  read_rows_lem m x pre off h e =
      rw (advance_lem pre (wire_table x) off e)
        (rw (rw append-nil at (get_table-wire_table junk x h [])))

  read_next_loop :
      (ts : List Bytes) (done : Bytes) (qs pre : List StrPtr) (n k : ℕ)
      → All IsText ts
      → n ≡ length ts
      → length qs ≡ length ts
      → k ≡ length pre
      → length done + length (wire_strings ts) < 4294967296
      → for_loop n k (read_next junk (done ++ wire_strings ts)) (pre ++ qs, length done)
        ≡ some (pre ++ map c_string ts, length done + length (wire_strings ts))
  unfolding for_loop read_next
  read_next_loop [] done [] pre n k h en eq ek small = rw (en, add-zero)
  read_next_loop [] done (q ∷ qs) pre n k h en eq ek small = absurd (omega arith)
  read_next_loop (t ∷ ts) done [] pre n k h en eq ek small = absurd (omega arith)
  read_next_loop (t ∷ ts) done (q ∷ qs) pre n k (ht, hs) en eq ek small =
      let w : ℕ = length (wire_string t) in
      let total : length (wire_strings (t ∷ ts)) ≡ w + length (wire_strings ts) =
        length-append (wire_string t) (wire_strings ts) in
      let pos : add32 (length done) w ≡ length done + w = omega arith in
      let rest =
        read_next_loop ts (done ++ wire_string t) qs (pre ++ c_string t ∷ []) (length ts) (k + 1) hs
          refl (omega arith) (omega (arith, length-append pre (c_string t ∷ [])))
          (omega (arith, length-append done (wire_string t))) in
      rw (en, read_string_at_lem t done (wire_strings ts) (length done) ht.1 refl)
        (rw (store_lem pre qs q (c_string t) k ek)
          (rw (pos, total) (simp (append_assoc, length-append, add_assoc) at rest)))

  read_strings_lem :
      (m : Message) (a b : ℕ) (ts : List Bytes)
      → m.stringlist ≡ none
      → IsList ts
      → read_strings junk m (a ∷ b ∷ (le16 (length ts) ++ wire_strings ts))
        ≡ some (record m { nstrings = length ts; stringlist = listed ts })
  unfolding read_strings
  read_strings_lem m a b [] e h = λ i. some (record m { nstrings = 0; stringlist = e i })
  read_strings_lem m a b (t ∷ ts) e (hn, h, small) =
      rw (join16 (length (t ∷ ts)) hn, suc-==-zero (length ts))
        (rw (
          read_next_loop (t ∷ ts) (a ∷ b ∷ le16 (length (t ∷ ts)))
            (replicate (length (t ∷ ts)) unset) [] (length (t ∷ ts)) 0 h refl
            (length-replicate (length (t ∷ ts)) unset) refl (omega arith)))

  -- What the reader does behind its tests, on the format of a body.
  unfoldable read_command : Body → Message → Option Message
  unfolding read_query read_resp
  read_command b m =
      if subcmd_of b == subcmd_query
      then read_query junk (command_of b) m (wire_body b)
      else read_resp junk (command_of b) m (wire_body b)

  read_command_lem :
      (b : Body) (m : Message)
      → m.stringlist ≡ none
      → Valid b
      → read_command b m ≡ some (read_back b m)
  unfolding read_command
  read_command_lem register_query m e v = refl
  read_command_lem show_tables_query m e v = refl
  read_command_lem list_info_query m e v = refl
  read_command_lem (caller_list_query u t) m e v =
      rw (join16 u v.0) (read_one_lem (record m { userid = u }) t (le16 u) 2 v.1 refl)
  read_command_lem (read_caller_query u f t) m e v =
      rw (join16 u v.0, join16 f v.1)
        (read_one_lem (record m { userid = u; flags = f }) t (le16 u ++ le16 f) 4 v.2 refl)
  read_command_lem (write_caller_query u f x) m e v =
      rw (join16 u v.0, join16 f v.1)
        (read_rows_lem (record m { userid = u; flags = f }) x (le16 u ++ le16 f) 4 v.2 refl)
  read_command_lem (write_call_query x) m e v = read_rows_lem m x [] 0 v refl
  read_command_lem (call_list_query o c) m e v = rw (join32 o v.0, join16 c v.1)
  read_command_lem (describe_table_query t) m e v = read_one_lem m t [] 0 v refl
  read_command_lem (delete_caller_query u t n) m e v =
      rw (join16 u v.0)
        (read_strings_lem (record m { userid = u }) _ _ (t ∷ n ∷ []) e (IsList-pair t n v.1 v.2))
  read_command_lem (listen_query k) m e v = rw (join32 k v)
  read_command_lem (register_resp c i) m e v = rw (join16 c v.0, join16 i v.1)
  read_command_lem (caller_list_resp c x) m e v =
      rw (join16 c v.0) (read_rows_lem (record m { errcode = c }) x (le16 c) 2 v.1 refl)
  read_command_lem (read_caller_resp c x) m e v =
      rw (join16 c v.0) (read_rows_lem (record m { errcode = c }) x (le16 c) 2 v.1 refl)
  read_command_lem (call_list_resp c x) m e v =
      rw (join16 c v.0) (read_rows_lem (record m { errcode = c }) x (le16 c) 2 v.1 refl)
  read_command_lem (write_caller_resp c n) m e v = rw (join16 c v.0, join32 n v.1)
  read_command_lem (write_call_resp c n) m e v = rw (join16 c v.0, join32 n v.1)
  read_command_lem (list_info_resp c n) m e v = rw (join16 c v.0, join32 n v.1)
  read_command_lem (show_tables_resp c l) m e v =
      rw (join16 c v.0) (read_strings_lem (record m { errcode = c }) _ _ l e v.1)
  read_command_lem (describe_table_resp c l) m e v =
      rw (join16 c v.0) (read_strings_lem (record m { errcode = c }) _ _ l e v.1)
  read_command_lem (delete_caller_resp c) m e v = rw (join16 c v)
  read_command_lem (listen_resp c) m e v = rw (join16 c v)

pub switch_on-code : (c : Command) → switch_on (code c) ≡ some c
unfolding switch_on code
switch_on-code register = refl
switch_on-code _ = refl

pub subcmd_of_cases : (b : Body) → (subcmd_of b ≡ subcmd_query) ⊎ (subcmd_of b ≡ subcmd_resp)
subcmd_of_cases (register_resp e c) = inr refl
subcmd_of_cases (caller_list_resp e x) = inr refl
subcmd_of_cases (read_caller_resp e x) = inr refl
subcmd_of_cases (call_list_resp e x) = inr refl
subcmd_of_cases (write_caller_resp e n) = inr refl
subcmd_of_cases (write_call_resp e n) = inr refl
subcmd_of_cases (list_info_resp e n) = inr refl
subcmd_of_cases (show_tables_resp e l) = inr refl
subcmd_of_cases (describe_table_resp e l) = inr refl
subcmd_of_cases (delete_caller_resp e) = inr refl
subcmd_of_cases (listen_resp e) = inr refl
subcmd_of_cases _ = inl refl

read_parts_lem :
    (junk : ℕ → ℕ) (b : Body)
    → Valid b
    → read_parts junk (code (command_of b)) (subcmd_of b) (wire_body b)
      ≡ some (read_back b (body_message (code (command_of b)) (subcmd_of b)))
unfolding read_parts read_command
read_parts_lem junk b v =
    let body = read_command_lem junk b (body_message (code (command_of b)) (subcmd_of b)) refl v in
    rw (switch_on-code (command_of b)) (elim (subcmd_of_cases b) [
      | inl query ↦ rw query (rw query at body)
      | inr resp ↦ rw resp (rw resp at body)
    ])

-- A packet whose header names a command and a subcommand, and whose data is the documented format
-- of a valid body of these, is read with no access outside the data, and the message holds the
-- arguments of the body and nothing else.
pub read_message-wire_body :
    (junk : ℕ → ℕ) (b : Body) (p : Packet) (old : Message)
    → Valid b
    → p.header.msg_command ≡ code (command_of b)
    → p.header.msg_subcommand ≡ subcmd_of b
    → region p.content ≡ wire_body b
    → read_message junk (some p) (some old)
      ≡ some (some (read_back b (body_message (code (command_of b)) (subcmd_of b))))
unfolding read_message
read_message-wire_body junk b p old v ec es er =
    ap (λ (o : Option Message). o >>= λ m. some (some m))
      ((λ i. read_parts junk (ec i) (es i) (er i)) ∙ read_parts_lem junk b v)
