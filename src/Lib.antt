-- ===== src/Lib.antt =====
-- fritz2ci: the notifications of the FRITZ!Box and the connection to it, what is looked up on a call,
-- the messages between the caller-information server and its clients, how they are sent and received,
-- and the server's list of clients.
--
-- The box sends a line for each call over a socket (fritz.c). The line is parsed and given to the main
-- program (main.c), which finds the area code (ci_areacodes.c), the alias of the local number
-- (msn_lookup.c) and the name of the caller (lookup.c), tells the clients of the server (ci-server.c),
-- and writes the call to the database (dbhandler.c), which the clients can ask.
--
-- The server and its clients exchange messages (CIDBMessage). A message is written as a packet,
-- which is a header of 22 bytes and data in a documented format (cidbmessages.c, cidbmessages.h);
-- a packet is cut into parts of at most 2048 bytes, each with a header of its own, and the parts
-- are sent over a socket and put together again (cidbconnection.c).
--
--   Memory: the bytes that a C pointer reaches, and the reads and writes through it. An access
--     outside of the object is a fault, `none`, and so is strlen of NULL. Freshly allocated memory
--     holds arbitrary bytes, a parameter `junk`. Numbers are natural numbers, and a sum that the C
--     code takes on 16 or 32 bits is cut to that width (`add32`, `% 65536`).
--   Wire: CIDB_SET_UCHAR to CIDB_GET_ULONG (cidbmessages.h).
--   Header: CIDBMsgHeader, cidbmsg_prepare_header, cidbmsg_read_header, cidbmsg_mkmessage.
--   Strings: C strings, cidbmsg_write_string, cidbmsg_read_string, _cidbmsg_strlen,
--     _cidbmsg_set_strlen, _cidbmsg_read_str.
--   Table: CIDBTable, cidbmsg_table_get_size, cidbmsg_write_table, cidbmsg_read_table.
--   Messages: CIDBMessage, CIDBMsg, cidbmsg_write_message (Messages/Write), cidbmsg_read_message
--     (Messages/Read). Messages/Body has the messages as abstract data and their format, apart from
--     the code; Messages/Says tells which message in memory says which of them.
--   Transmission: cidbmsg_transmission_start, cidbmsg_transmission_continue.
--   Connection: cidbcon_send_message and cidbcon_recv_message. The socket is a script: the list of
--     the numbers that send returns, and of what recv brings. The loops consume one entry a round, so
--     no fuel is needed; a script that ends before the loop does leaves the call waiting.
--   Server: ci-server.c: cisrv_init, cisrv_run, cisrv_broadcast_message, cisrv_disconnect, the list of
--     clients, and in Server/Listen the rounds of _cisrv_listen_thread_proc with
--     _cisrv_handle_client_message. The sockets are scripts again, and the format of the library
--     cinet is a parameter. Server/Reach has the states that these operations reach.
--   Msn: msn_lookup.c: _read_line, the loop of msnl_read_file over the lines that fgets gives, and
--     msnl_lookup.
--   Numbers: is_valid_number of dbhandler.c.
--   Text: texts without their NUL, strcmp, strcpy and g_strlcpy.
--   Fritz: fritz.c. Fritz/Notify is _fritz_parse_notification, with the library functions as
--     parameters, and Fritz/Notify/Decode the notifications apart from the code: the fields that the
--     parser needs, and the documented formats. Fritz/Link is the connection to the box with its
--     timeout, Fritz/Link/Rounds the rounds of its thread, and Fritz/Link/Shutdown fritz_shutdown and
--     fritz_cleanup, which wait for the thread: they are given the rounds that it still makes. What
--     the kernel does is a parameter of each operation, and an operation or a round is one step.
--   Lookup: lookup.c. Lookup/Escapes is _cirlw_remove_escapes, Lookup/Url is _cirlw_prepare_url, both on
--     the characters of an array, for a number of rounds that has to exceed the length; Lookup/Match is
--     _cirlw_match_patterns, Lookup/Sources cirlw_load_sources_from_file on the tree of the document,
--     Lookup/Caller the search in the cache and the web. SQLite, cURL, libxml, regular expressions and
--     the conversion of charsets are parameters.
--   Areacodes: ci_areacodes.c: the index that ci_read_area_codes_from_file makes of the lines that
--     fgets gives, and ci_get_area_code, with the byte behind the NUL of the number as a parameter.
--   Main: main.c: handle_fritz_message, with the lookups and the formats of times as an interface, the
--     queue for the database, and in Main/Handle/Report the path of a line from fritz.c to the clients.
--   Database: dbhandler.c: the names of callers, with SQLite as an interface whose laws state what SQL
--     says of one row, and in Database/Times parse_datetime.
--   Server/Requests: the handlers of ci-server.c for the requests to the database, with
--     dbhandler_get_calls and dbhandler_get_callers of dbhandler.c.
--
-- Not modelled: freeing of memory (cidbmsg_table_free and the calls of free), so that nothing is
-- said on leaks or on use after free; allocation, opening of files and select that fail; threads that
-- interleave within an operation; the netlink messages; the contents of the events that the server
-- sends; the insertion of a call into the database; the start and the end of the program, process
-- control, logging and configuration.
pub mod Prelude
pub mod Memory
pub mod Wire
pub mod Header
pub mod Strings
pub mod Table
pub mod Messages
pub mod Transmission
pub mod Connection
pub mod Text
pub mod Server
pub mod Msn
pub mod Numbers
pub mod Fritz
pub mod Lookup
pub mod Areacodes
pub mod Database
pub mod Main
pub mod Examples
