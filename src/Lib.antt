-- ===== src/Lib.antt =====
-- A messenger that speaks over DNS: clients put commands into the labels of a query's name, and the
-- relay answers in a TXT record. The relay keeps accounts, mailboxes, groups and files in memory;
-- whoever controls a network path controls what it is asked, so names are pinned to signing keys,
-- requests are signed, and every store is bounded. The web client pins the keys of its peers, cuts
-- messages into queries, encrypts direct messages by X3DH and a double ratchet, and guards accounts
-- by limits, one-time codes and session versions.
--
-- The parts, and the code that they model:
--   Prelude     lists, Booleans, texts, sets and base64 as Python has them, and lemmas on them
--   Dict        Python's dict as an association list in insertion order
--   Protocol    protocol.py: base32 without padding, chunks, the limits of names
--   Crypto      crypto_utils.py: bundles, the signed texts, the signature inside of a message, and
--               the safety number (Crypto/Safety); Cipher: the identity and its file, encryption,
--               sealed group keys; Sealing: what is sealed is opened again
--   Ratchet     ratchet.py: X3DH and the key derivations; Header: _pack_header, _unpack_header;
--               Session: RatchetSession with encrypt, _skip_recv, _dh_ratchet_step, decrypt;
--               Storage: to_dict, from_dict. Proofs: Agreement (X3DH), Bounds, Chain (the keys of a
--               chain), Steps (the branches), Delivery, Turn, Conversation and Handshake (from the
--               shared secret to what is read), Forged
--   Transport   transport.py: _build_query, the provider and the answer of DoHTransport,
--               MultiTransport
--   Relay       server.py, class RelayServer:
--     State       the fields of __init__ and the limits; Reply: what a handler returns, and its text
--     Accounts    _h_register, _h_getkey, _h_list_users
--     Auth        _accept_poll_nonce, _authorize_poll
--     Assembly    _assemble, _remember_delivered, _h_send, _h_poll
--     Groups      _h_gcreate, _h_glist, _h_gleave, _h_gkick, _h_gmembers
--     Invites     _h_ginvite, _apply_ginvite, _h_ginvite_chunked
--     GroupMail   _h_gsend, _h_gpoll
--     Files       _h_fheader, _h_fchunk, _h_fpoll, _h_fdownload
--     Disk        _h_diskreg, _h_disklist
--     Limiter     _rrl_allow; Evict: _evict; Dispatch: DISPATCH, handle_query, run
--   Web         web_client.py:
--     Accounts    _hash_password to remove_webauthn_cred; BackupCodes: to consume_backup_code
--     Throttle    rate_limited, account_throttled, note_login_failure
--     Sessions    pending_2fa_user, bump_user_sv, is_admin_session, the test of get_messenger
--     Peers       UserMessenger._remember_peer, get_peer_key, peer_verify_key
--     Prekeys     bootstrap_or_replenish_prekeys, publish_prekey_bundle, take_prekey_bundle
--     Frames      _pack_ratchet_init, _unpack_ratchet_init; Retry: _q_reliable
--     Sending     UserMessenger._send_chunked
--     Messages    UserMessenger.send_dm and _decrypt_from; First: a first message, end to end
--     GroupMail   UserMessenger.send_group, and a message in poll_group; Marks: what its mark proves
--   Bridge      disk_bridge.py: fetch_registry, over the relay's _h_disklist (Registry)
--   Examples    runs on small states, and with toy primitives
--
-- A handler `_h_x` is `h_x`: it takes the labels of the query, the state and, where the code reads
-- the clock, the time, and gives the reply with the state after it. A dictionary of the class is a
-- field of `Relay`, under its name; the three stores that _assemble gets are an `Assembler`. The lock
-- makes each handler atomic, so a run of the relay is a list of queries.
--
-- Texts and bytes are lists of code points and of bytes; names, labels and times in requests are
-- ASCII. Times are natural numbers of milliseconds, and stand still within one query. Exceptions are
-- replies of their own (`raised`), since handle_query turns them into text. Fuel bounds the cutting
-- of a text (its length) and the printing of a number (the number and one).
--
-- A method of a session gives an outcome, a value or an exception, beside the session that it leaves,
-- since an exception does not undo what was written before. A private key stands for its raw bytes.
-- What is drawn at random (keys, nonces, salts, codes) is an argument. A JSON file is the dictionary
-- that reading it gives. A loop of the ratchet recurs on the count of its rounds, _q_reliable on the
-- retries left.
--
-- Parameters: Ed25519's verification and SHA-256 (record Crypto), X25519, Ed25519's signing, HKDF,
-- HMAC, scrypt and ChaCha20-Poly1305 (record Primitives), SHA-512, PBKDF2, the parser of DNS packets,
-- the replies of the relay to a client, and the text of an exception. Where a theorem relies on a
-- primitive, its law is a hypothesis: X25519 commutes, ChaCha20-Poly1305 opens what it sealed, a
-- public key is not empty, keys and signatures have their sizes, Ed25519 accepts what it signed. Not
-- modelled: sockets, HTTP, files and their permissions, the log lines on the console; of
-- web_client.py the routes, polling loops, membership of groups, file transfer and message buffer;
-- the programs client.py and webpush.py, and the main loop of disk_bridge.py.
pub mod Prelude
pub mod Dict
pub mod Protocol
pub mod Crypto
pub mod Ratchet
pub mod Transport
pub mod Relay
pub mod Web
pub mod Bridge
pub mod Examples
