-- ===== src/Lib.antt =====
-- The runtime that compiled programs link against: native-core/shim/native_shim.c and
-- native_shim.h, and native_parallel.c beside them.
--
-- Parts, and how they interact. Everything that a program makes lives in an arena, a bump allocator
-- over a fixed block or over chunks from `malloc`. Buffers are mutable arrays in an arena whose
-- handles are checked, at each access, against a registration that outlives a reset. Vectors are
-- persistent headers over element storage that several headers share, with a watermark that says
-- which slot is free. Texts are length-prefixed byte strings in an arena; the UTF-8 routines and
-- the regular expressions read their bytes. Maps and sets keep entries in the order of insertion in
-- an arena; a map of some length has an index from hashes to positions, and both compare keys by an
-- equality that the caller names. An atom is a cell that threads share behind a spin lock. The
-- parallel runtime cuts a buffer into tiles, gives each tile the part of the buffers that it may
-- read and write, which the tests of the buffer accesses then enforce, and runs the tiles on a pool
-- of workers.
--
-- Files, of native-core/shim/native_shim.c but for Parallel:
--   Base      shared names, lists and arrays over the native numbers, 64-bit signed integers as a
--             sign and a magnitude, and `Run`: a call returns, or ends in `native_trap` with a code
--   Arena     native_arena_init, init_growable, add_chunk, alloc, reset, destroy, reserved_bytes
--   Buffer    native_dense_bytes, native_buffer_require, checked_offset, new, length, at, set,
--             the two native_parallel_*_allowed tests, native_arena_buffer_registration_count and
--             native_arena_buffer_registration_at
--   Vec       native_vec_new, at, assoc, push; Vec/Bulk: concat, slice, reverse; Vec/Transient:
--             native_transient_vec_new, push, freeze
--   Text      native_text_length, bytes, eq, compare, alloc, slice; Text/Search: index_of,
--             last_index_of; Text/Integer: parse_i64, from_int; Text/Build: concat, join, repeat
--   Utf8      native_utf8_next, previous, write_codepoint, native_text_from_codepoint,
--             native_utf8_valid, native_text_is_blank, native_text_trim
--   Regex     native_regex_compile; Regex/Match: native_regex_match_tokens; Regex/Search:
--             native_regex_search, native_text_regex_matches
--   Collection  native_collection_bytes, grown_capacity, and what maps and sets ask of an equality;
--             Collection/Keys: native_collection_check_equality, validate_candidate, equal,
--             native_value_hash_byte, native_value_hash_u64, native_map_hash_mix, hash_key
--   Map       native_map_new, check*, count, key_at, value_at, find, get, contains; Map/Indexing:
--             native_map_index_*; Map/Change: from_arrays, assoc, dissoc and the transient maps
--   Set       native_set_new, check*, count, item_at, find, contains, from_array, conj, disj and the
--             transient sets
--   Atom      native_atom_new and the moves of native_atom_deref, lock, store_unlock and
--             compare_exchange; Atom/Threads: any number of threads; Atom/Lock, Fresh, Serial and
--             Release: proofs
--   Parallel  of native-core/shim/native_parallel.c: native_parallel_valid_workers, add_clamped,
--             partition_count, partition_access and the range of a tile; Parallel/Pool: the claim
--             loop of native_parallel_worker_main, native_parallel_run; Parallel/Scratch:
--             native_parallel_runtime_reserve and the frees of the destruction; Parallel/Commit: the
--             end of native_parallel_tiled_step_f64_v0; Parallel/Stepped: a step from its job to its
--             end, with the writes of the tiles; Parallel/Tiles, Halo, Pooled, Released: proofs
-- A child module holds the proofs on the definitions of its parent, and Examples the tests.
--
-- How state is modelled. A C function that changes an arena takes it and returns the new one. An
-- address is a number, and NULL is 0 or `none`. `malloc` is a list of answers, one for each call, and
-- an empty list is a heap without memory; the heap keeps what was given and what was freed. Memory
-- behind a buffer is a function from addresses to bytes. The storage of vectors is a list of blocks
-- of whole elements, so a stride times an index is a slot; that two blocks never overlap is what
-- Arena/Disjoint.antt is about. Pointers to arenas, headers and results are not NULL, where the code
-- traps or returns false on NULL; fields that hold lengths are not negative. A text handle carries
-- the bytes it reaches, since nothing writes to them after they are handed out. A map or a set is a
-- value: a persistent one is never written again, nor is an index that two of them share, and a call
-- on a transient one returns what it has become. A key is memory that its kind says how to read, and
-- a double is its 64 bits; structural equality, which reads descriptors, is supplied by the caller.
--
-- Threads are a family of places in the code over one shared state, and a step moves one of them:
-- the accesses of a thread to an atom are moves of their own, byte for byte, and what a worker of
-- the pool does under the mutex is one move; a tile writes whole elements, one move each, and ends
-- with any status, since the kernel is the caller's. The order of moves is any, and a log of what was
-- completed, which the code does not keep, says what happened.
--
-- Bounds and fuel. Words have 64 bits (size_t, uintptr_t, uint64_t). The doubling of
-- `native_arena_add_chunk` has 64 rounds, since a capacity of at least 1 passes every word by then;
-- the digit loop of `native_text_from_int` has 20, since a word has 20 digits; the loops over a
-- pattern or over UTF-8 text have as many rounds as bytes, since each takes one at least; the
-- doubling of `native_map_index_slot_count` has 64 rounds and needs 26 at most, and a walk along the
-- slots of an index has as many rounds as there are slots and comes to an empty one before; all
-- other loops go down a list or a number.
--
-- Not modelled: the vendored ffc.h at the start of native_shim.c and the floating-point text that
-- calls it, value descriptors, SHA-256, case tables, the host's processes, sockets and files, the
-- creation of the threads of the pool, and the store under store/native. They are later parts of
-- the plan, other projects' code, generated code, or input and output.
pub mod Base
pub mod Arena
pub mod Buffer
pub mod Vec
pub mod Text
pub mod Utf8
pub mod Regex
pub mod Collection
pub mod Map
pub mod Set
pub mod Atom
pub mod Parallel
