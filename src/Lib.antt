-- ===== src/Lib.antt =====
-- A verification library for the preservation archive of the Ascension client: what its world server
-- keeps and sends, the caches that its consolidator reads and writes, and the characters that its
-- importer restores.
--
-- server/world_server.py talks to the game client, server/ascension_bridge.py carries a client's
-- session to an emulator core. Both frame packets alike: a header of size and opcode, enciphered by
-- RC4 once the session has a key, then the body. tools/cache-consolidator merges the query caches of
-- many clients and publishes one file for each game mode. tools/character-importer plans the database
-- rows of a character from what an addon captured of it.
--
--   Common            numbers, lists, results, bytes (a byte is a number below 256), bits and
--                     dictionaries, which are association lists in the order of insertion, with numbers
--                     for keys (Dict) or any (Assoc).
--   Wire/Rc4          `class RC4` and `make_crypt` of server/world_server.py. HMAC-SHA1 is a parameter.
--   Wire/Socket       `recv_exact` and `sock_sendall`. The socket is a parameter: a state, and `recv`
--                     on it; what a socket is assumed to do stands in `Delivers` and `Writes`.
--   Wire/Frame        `frame_pkt`, `send_pkt`, `send_batch` of server/world_server.py; `frame_s2c`,
--                     `frame_c2s`, `read_s2c`, `read_c2s` of server/ascension_bridge.py. A reader takes
--                     the socket and its cipher to a result and both as they are afterwards.
--   Cache/Wdb         `read_header`, `iter_records`, `inspect` of
--                     tools/cache-consolidator/tools/wdblib.py.
--   Cache/Rebuild     `build_wdb` and `verify` of tools/cache-consolidator/tools/rebuild.py.
--   World/Bars        the action bars of server/world_server.py.
--   Wire/Session      CMSG_AUTH_SESSION: both parsers, `build_auth_session`, `auth_digest` and
--                     `verify_digest`. SHA-1 is a parameter.
--   World/Objects     `next_guid`, `pack_guid`, the field blocks and `parse_spell_targets`.
--   World/Combat      health, power and the target dummies; `Effects` and `Cast` have
--                     `aura_periodic_apply` and `apply_spell_effects`, `Auras` and `Auras/Clock` have
--                     `apply_aura`, `remove_aura` and `aura_tick`. Packets stand for the calls that
--                     build them, times are in milliseconds, and what a random roll comes to is an
--                     input.
--   World/Entries     `smsg_ca_known_entries` and `parse_cmsg_ca_known_entries`.
--   World/Accounts    the buckets of account data, the seeding of bindings, and the two packets of account
--                     data. A save is taken as done.
--   World/Packets     packet bodies as lists of fields: Auras (auras, combat log, casts), Chat (messages,
--                     names, the realm, configuration, spells) and Builds (the build creator).
--   Coa               server/coa_mode.py: `rewrite_char_enum` and `bytes0_for` (CharEnum), `Essence`,
--                     `CoAState` (State). `rewrite_char_enum` raises inside and then gives the packet back.
--   Lua               tools/cache-consolidator/tools/luaser.py: the tokens (Lexer), the string literals
--                     (Literal), `_Parser` and `loads` (Parser), `_write` and `dumps` (Writer). The UTF-8
--                     codec, the equality of keys and the printing of floats are parameters.
--   Cache/Checkpoint  `recover` and `commit` of tools/cache-consolidator/tools/merge_checkpoint.py, as
--                     lists of changes to the disk that may be cut anywhere. SHA-256 is a parameter, and so are
--                      whether a path resolves into the store and into the transaction directory.
--   Cache/Merge       the loop of tools/cache-consolidator/tools/merge.py over the records of a source:
--                     the index of a cache and its pack. SHA-1 is a parameter.
--   Cache/Tsv         `read_tsv` and `write_tsv` of tools/cache-consolidator/tools/merge.py.
--   Cache/Winners     `pick_winners` of tools/cache-consolidator/tools/export.py, with the dates and ranks of
--                     capture_dates.py.
--   Coa/Create        the creation of a character in server/ascension_bridge.py: `fix_char_create`,
--                     `carrier_class_for`, and what the core's answer does to the staged class.
--   Cache/Gather      `merge_gathermate` of tools/cache-consolidator/tools/luamerge.py. `str` of a key and
--                     Python's equality of values are parameters.
--   Importer/Equip    tools/character-importer/bms_equip.py: the tables and masks, and in Refusals
--                     `equip_refusal`, check by check. A refusal is the data of its message.
--   Importer/Items    the placement of items in `_plan_items` of tools/character-importer/bms_import.py, the
--                     slots of bms_map.py, and the messages of `_plan_mail`. Which templates are known and
--                     what the equip check says are arguments.
--
-- Fuel: the lexer of SavedVariables runs on the length of the text and the parser on the number of
-- tokens, since every round takes one of them. `recv_exact n` runs on fuel `n`, since every round
-- adds a byte or ends. The walks of a cache run on the length of the file, since a record takes 8
-- bytes at least. The catch-up loop of a tick runs on fuel `now + 1`, since every round moves the
-- next tick on by a period. The split of the mail runs on the number of items, since a message takes
-- one at least.
--
-- Threads and locks are not modelled: an operation runs alone. Neither are logging, the clock (the
-- time is an argument) and the file system, of which only success or failure is an argument. Of the
-- program, the session handlers, the chat commands, the logon shim, the rest of the character importer
-- and of the Lua merger, and the publishing scripts are not modelled. The digits of SavedVariables are the ASCII
-- ones, where Python's patterns take those of other scripts too.
pub mod Cache
pub mod Coa
pub mod Common
pub mod Importer
pub mod Lua
pub mod Wire
pub mod World
