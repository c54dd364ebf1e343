-- ===== src/Lib.antt =====
-- BearTLS: TLS 1.2 and HTTPS for Windows CE on top of the BearSSL library.
--
-- The program is one library with two source files. BearTLS/wm_https.c opens TLS connections, sends
-- requests over them and reads the answers, and has helpers for one web service: the decryption of a
-- session identifier, a hashcash solver and a key derivation. BearTLS/wm_cert_store.c fills the table
-- of trust anchors that a connection is checked against, from a file and from tables in the program;
-- it also finds and registers the place of the library. Beside the library stand its installer, an
-- example program, a smoke test and the seeder of the random generator.
--
-- Which file models which part (function names of the source in brackets):
--   Base        arrays that are written with a check of the bounds, lists, numbers, text
--   Request     BearTLS/wm_https.c [wm_https_append_request_text, wm_https_append_request_data,
--               wm_https_build_request]
--   Base64      BearTLS/wm_https.c [wm_hashcash_from64, wm_hashcash_b64_decode,
--               wm_hashcash_b64_encode] and BearTLS/wm_cert_store.c [wm_cert_store_b64_value,
--               wm_cert_store_decode_b64]
--   Mega        BearTLS/wm_https.c [wm_mega_mpi_read, wm_mega_actual_len,
--               wm_mega_rsa_decrypt_session]
--   Hashcash    BearTLS/wm_https.c [wm_hashcash_load_be32 up to wm_hashcash_solve]
--   Pbkdf2      BearTLS/wm_https.c [wm_pbkdf2_hmac_sha512_once, wm_pbkdf2_sha512_b64salt]
--   Connection  BearTLS/wm_https.c: Platform has the result and the connection
--               [wm_https_zero_result, wm_https_disconnect], Connect [wm_https_connect_ipv4], Records
--               [wm_tls_send_pending_records, wm_tls_recv_pending_records, wm_tls_drive_records], Open
--               [wm_tls_open, wm_tls_close], Transfer [wm_tls_write, wm_tls_read], Exchange
--               [wm_tls_exchange_internal, wm_https_request, wm_https_get, wm_tls_exchange].
--               The theorems: Streams, Delivery, Response, Answer (the data), Held, Balance, Kept,
--               Leaks (what is held), Progress, Ends, Budget, Returns (that the loops end), Fields,
--               Agreement (the result record), Requests (building and sending)
--   CertStore   BearTLS/wm_cert_store.c: Paths [DllMain and the wm_bear_tls functions], Pem
--               [wm_cert_store_find_text, wm_cert_store_count_pem_certs], Anchor
--               [wm_cert_store_append_dn, wm_build_anchor_from_der], File [wm_cert_store_read_file],
--               Load [wm_cert_store_alloc, wm_cert_store_load_pem_roots, wm_cert_store_init,
--               wm_cert_store_anchors, wm_cert_store_anchor_count], Interface and Client (the store
--               as Connection uses it). The theorems: Search, Marks (the text), Name, Build, Filling,
--               Room, Start (the tables), Resources, Kept, Client (what is held), Locate, Documented
--               (the paths)
--   Installer   BearTLS_CAB/BearTLS_CAB.cpp [bt_copy_string, bt_append_string, bt_set_reg_string,
--               bt_write_registry, Install_Init, Install_Exit, Uninstall_Init, Uninstall_Exit]; Copy
--               and Registry have the theorems
--   Example     BearTLS/main_example.c [append_text, append_status_line, WinMain]; Line, Buffer,
--               Report and Program have the theorems
--   Seeder      BearTLS/bearssl_wince_stub.c [wince_seed, br_prng_seeder_system]; Layout
--               has the theorem
--   Smoke       BearTLS/dll_smoketest_main.c [WinMain]; Lookup has the theorem
--   Tests       the development at concrete inputs
--
-- How the parts meet. A connection takes its trust anchors from the certificate store through the
-- interface `RootStore`: the state of the static variables, the initialization with the number of
-- heap blocks that it keeps, and the blocks of the tables. CertStore.Client fills it with the model of
-- wm_cert_store_init, and Tests.Certified runs a connection over it. The blocks of the tables are
-- counted among those of the program.
--
-- State and operations. A pointer with a length is a list of cells, and a pointer that may be null is
-- an option. A write goes through `memcpy` or `store` of Base.Memory, which give nothing where the
-- write leaves the array: that is a fault, and each function says how its result shows it. A
-- connection is a record, and what the program holds of the system (uses of Winsock, sockets, blocks)
-- is counted beside the state of the system. Each function of the source is one function here, with
-- its guards and early returns in the source's order; the parts of a long function have names of their
-- own. Sums of `unsigned int` that can wrap are written with `% 2 ^ 32`.
--
-- What is not code of this repository is a parameter: the TLS engine, Winsock and the heap are the
-- interface `Platform`, the file system is `System`, the certificate decoder is `Decoder`, the hashes
-- are `Sha256` and `HmacSha512`, and the RSA operation and the tick counter are functions. `Streams`
-- says what an engine reports of application data, `Progress` that an engine and its peer have a
-- finite amount of work, and `Documented` and `Located` what `GetModuleFileName` writes; they are
-- hypotheses of the theorems that use them.
--
-- Fuel. The hashcash search runs for 2 ^ 32 rounds, as many as there are nonces. A key derivation has
-- a round for each byte that is asked for, more than it has blocks. The loop over a PEM text has one
-- round more than the text has bytes, and each round consumes some. The loops of a connection last as
-- long as the peer and the engine make them, and their fuel is an argument; its end is told apart from
-- every return of the code, and under `Progress` a bound on the fuel of an exchange is proved.
--
-- Not modelled: the copy of BearSSL under BearTLS/bearssl, the bytes of the root certificates, the
-- wiping of local arrays before a return, the wording of progress messages and of the smoke test, and
-- the message boxes of the programs around the library.
mod Base
pub mod Request
pub mod Base64
pub mod Mega
pub mod Hashcash
pub mod Pbkdf2
pub mod Connection
pub mod CertStore
pub mod Installer
pub mod Example
pub mod Seeder
pub mod Smoke
mod Tests
