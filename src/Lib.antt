-- ===== src/Lib.antt =====
-- Verification of the Go SDK of NeoFS (neofs-sdk-go): the parts that decide or compute, modelled from
-- their source.
--
-- container/acl (Acl, with children Acl/Word, Acl/Access, Acl/Presets, Acl/Text): the basic ACL is the
-- uint32 `Basic`, a natural number below 2^32. `set_bit`, `is_bit_set`, `set_op_bit` and the order of the
-- operations are util.go and init.go; `allow_op`, `is_op_allowed`, `allow_bearer_rules` and the flags are
-- the methods of acl_basic.go. A panic is an `err` of the type `Panic`. `strings.ToLower` is taken on
-- ASCII letters. The texts of operations and roles for messages are left out.
--
-- eacl (Eacl, with Eacl/Validator, Eacl/Equal, Eacl/Keys, Eacl/Message): tables of records with filters and targets;
-- `calculate_action` is `Validator.CalculateAction` with the loops `matchFilters` and `targetMatches`.
-- Filter values are interfaces with one method, taken as the text that it returns. The names of the
-- reserved keys are constants of the API package, a parameter `FilterNames`. Eacl/Message has `ToV2` and the
-- `FromV2` functions of tables and their parts, with the proofs in Eacl/Message/Kept: a message is what its
-- getters return, and a value of an enumeration one of the constants that the code names or another. The
-- binary and the JSON forms are left out.
--
-- object/slicer (Slicer/Object, Slicer/Writer): `write`, `close` and `slice` are the methods of
-- `PayloadWriter` and the function `slice` of slicer.go. What is outside is the record `Env`: the hash
-- functions, `Object.CalculateID`, the signer, the fresh split ID, and the stream of objects, which may
-- refuse any object after any history, and the memory for buffers: a limit that is no int of 64 bits, or for
-- which there is no memory, ends the program. A hash in progress is the bytes that were written to it since its
-- last reset. An object is recorded in `log` as it was when the stream took it: Go's children share one
-- header, which later calls overwrite. The state after an error is not kept. `write` calls itself on the
-- rest of a chunk: it takes fuel, the length of the chunk plus two, which is enough since every second
-- call at least takes a byte. `slice` reads a list of what `Read` returns. The object type, which is
-- always the regular one, is left out. Slicer/Writer/Limit, Invariant, Step, Progress, Keeps, Total,
-- Close, Chain, Whole, Outcome and Finishes hold the proofs in this order: the limited writer, the
-- invariant between two calls, one child, a whole call of Write, the end of Write, of Close and of slice.
--
-- bearer (Bearer, with Bearer/Reading for the proofs): `read_from_v2` is `Token.readFromV2` with its checks
-- of presence, `write_to_v2` is `WriteToV2`, and `invalid_at`, `assert_container` and `assert_user` are
-- `InvalidAt`, `AssertContainer` and `AssertUser`. Access tables are converted by Eacl/Message; a user's
-- bytes stand in a message as they are. Signing, the binary and the JSON form are left out.
--
-- session (Session, with Session/Scope and Session/Readable for the proofs): `Object` is the object session.
-- `read_context` and `write_context` are `readContext` and `writeContext`, `assert_object`, `assert_verb` and
-- `assert_container` its questions, and `invalid_at` is `InvalidAt` of common.go. An ID is the bytes of its
-- array, and a verb's int8 the number of its bits. Session/ContainerScope is the
-- container session of container.go, with its proofs. The rest of a session's message and signing are
-- left out.
--
-- client (Client/Stream, Client/Payload, Client/Search, Client/Put): the streams of objects. `fill` and
-- `read_chunk` are `readChunk`, which the readers of a payload, of a range and of search results share but
-- for the test of a message's type; `read` and `close` are the readers' methods, `iterate` is `Iterate`, and
-- `write`, `close` the methods of `DefaultObjectWriter`. A stream is the list of what its calls give. A Go
-- int is the number of its 64 bits. `iterate` takes fuel, one more than there are IDs; `write` one more than
-- there are bytes. Client/Stream/Queue, Client/Payload/Drain, Client/Search/Visits and Client/Put/Pieces
-- hold the proofs.
--
-- object/relations (Relations): `get` is `Get` over an executor, which is a parameter. It goes along the chain
-- on fuel, as many steps as there are parts. Relations/Walk and Relations/Sliced hold the proofs, the latter
-- on what the slicer writes.
--
-- waiter (Waiter, with Waiter/Confirm for the proofs): `poll` reads a list of what its select takes, ticks and
-- the end of the context, and is none where the list ends first. A tick carries what the network answers
-- then. `container_put`, `container_delete` and `container_set_eacl` are the waiters' methods.
--
-- pool (Pool, with Pool/Health and Pool/Choice for the proofs, and Pool/Cache with Pool/Cache/Laws): the
-- monitor of a node's errors and health, `connection` with the sampler's draws as a sequence, and the session
-- cache over the operations of an LRU cache, the parameter `Lru` with the laws that its documentation gives.
--
-- container (Container): `set_attribute`, `attribute`, `write_domain` and `read_domain` are the methods of
-- container.go, `read_from_v2` is `readFromV2`, and `apply_network_config` and `assert_network_config` are those
-- of network.go, over Netmap/NetworkInfo. The names of system attributes, UUIDs and the check of an owner are
-- the parameter `ContainerEnv`. Container/Attributes and Container/Reading hold the proofs.
--
-- user (User, with User/Wallet for the proofs): an ID is its bytes. `read_id` is `ReadFromV2` and
-- `set_script_hash` is `SetScriptHash`; checksums, prefixes and Base58 are the parameter `WalletEnv`.
--
-- stat (Stat, with Stat/Counts, Stat/Requests and Stat/Overall for the proofs): `operation_callback` and what
-- `Statistic` reads. The map of monitors is an association list by the node's key.
--
-- version (Version): the revision number, which tables and objects carry.
--
-- netmap (Netmap/Node, Netmap/Filter, Netmap/Select, Netmap/Container): the placement of a container.
-- `process_filters` is `context.processFilters`, which checks the filters and fills the caches of the
-- context; `match_fuel` is `context.match`. The messages of the API package are taken by the fields that
-- their getters return, and the operations by the names that the code uses. A Go map is a list of its
-- assignments, the last first. `match` follows named filters and takes fuel: the number of filters in the
-- policy is enough where no two top filters share a name; where they do, Go's `match` may not end. A panic
-- of `Price` or `capacity` on a value that is no number is an error. `get_selection` is
-- `context.getSelection`, and `buckets` its `getSelectionBase`. The orders that it depends on are the
-- record `Orders`: weighted sorting of the package hrw, `sort.Slice`, and a Go map's iteration; the
-- theorems take from them that they reorder (`Reorders`). The sorting weights are floating-point numbers
-- and are not modelled. A product of counts that leaves Go's int ends in an error, as the slice
-- expression does. `container_nodes` is `NetMap.ContainerNodes` with `process_selectors`. Netmap/Filter/Resolve,
-- Accept, Policy, Meaning, Repeated and Nested, Netmap/Select/Count, Enough and Outcome, and Netmap/Container/Rows
-- hold the proofs.
--
-- netmap text (Netmap/Text): `write_string_to` is `PlacementPolicy.WriteStringTo` of policy.go and `write_filter`
-- is `writeFilterStringTo`. The writer, which may refuse a text, and the names of operations are the parameter
-- `Writer`. A uint32 is written with fuel for ten digits, which is as many as it can have. Netmap/Text/Written
-- has the statements, Lines the whole and Ambiguous the nested filters.
--
-- netmap network info (Netmap/NetworkInfo, with Netmap/NetworkInfo/Setting): the parameters of a network as a
-- list of names and values. `set_config` and `config_value` are `setConfig` and `configValue`, `read_from_v2`
-- is `readFromV2`, and Setting has the setters and getters of numbers. A float64 is its 64 bits, and the
-- booleans of the virtual machine are the parameter `StackItem`. Kept, Reading,
-- Replaced and Getters hold the proofs.
--
-- Prelude holds what these parts share: Boolean tests, lists over native numbers, results, bits of words,
-- byte strings, integers. Each component's tests apply its theorems to small inputs.
--
-- Not modelled: remote calls and messages (the rest of client, client/status), cryptography (crypto), the getters and
-- setters over messages (object, audit, reputation, storagegroup and the identifiers), the
-- generated parser of placement policies, floating-point weights, and the rest of pool.
pub mod Prelude
pub mod Version
pub mod Acl
pub mod Eacl
pub mod Slicer
pub mod Bearer
pub mod Session
pub mod Client
pub mod Relations
pub mod Stat
pub mod Waiter
pub mod Pool
pub mod User
pub mod Container
pub mod Netmap
