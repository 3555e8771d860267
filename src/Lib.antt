-- ===== src/Lib.antt =====
-- Verification of lexLeo: its stream and logger foundation, and the application over it.
--
-- lexLeo reads and writes everything through streams (src/foundation/stream_new). A port defines the
-- stream handle, a factory with a registry of adapters, and creators for clients; three adapters
-- supply backends: a growing buffer in memory, a file, and a standard stream. The application
-- registers a provider for each adapter in a factory and creates streams through it. A logger
-- (src/foundation/logger_new) writes dated lines to a stream.
--
-- Parts, their files and the code they translate:
--   Status          the status enumerations of the port, of the adapters and of the file interface,
--                   and the functions that translate one into another (fs_stream_cr.c,
--                   stdio_stream_cr.c, stream_owner.c)
--   Memory          the world behind the injected operation tables: the blocks that calloc, realloc
--                   and free manage, and the files that open and close manage
--                   (src/foundation/osal/osal_mem, osal_file)
--   DynamicBuffer   src/foundation/stream_new/adapters/dynamic_buffer_stream/src/
--                   dynamic_buffer_stream_cr.c: read, write, flush and the reservation of storage;
--                   below it Lifetime holds create, complete_default_init, create_init, close and
--                   the backend constructor
--   FsStream        src/foundation/stream_new/adapters/fs_stream/src/fs_stream_cr.c
--   StdioStream     src/foundation/stream_new/adapters/stdio_stream/src/stdio_stream_cr.c
--   Stream          the port (src/foundation/stream_new/port): stream_cr.c (stream_create, stream_create_init), stream_owner.c
--                   (stream_destroy), stream_borrower.c (stream_read, stream_write, stream_flush)
--   StreamFactory   of the port, the factory and its registry (stream_cr.c), and
--                   stream_factory_create_stream (stream_owner.c); below it Provider holds the
--                   create_adapter_provider functions of the three adapters
--   StreamCreator   of the port, the creators of the three kinds of stream (its src/cr/creators and
--                   src/owners/creators)
--   UtcTimestamp    the conversion of Unix time to a date for the default logger
--                   (src/foundation/logger_new/adapters/logger_default,
--                   logger_default_utc_timestamp.c)
--   Logger          the log operation of the default logger over a stream (logger_default_cr.c): the
--                   timestamp prefix, the message, the end of the line, and the flush; below it
--                   Lifetime holds the construction and release of loggers (logger_cr.c of the
--                   port and logger_default_cr.c) and logger_log (logger_borrower.c)
--   LogPath         the path of the log file (src/lexleo_app/src/cr): lexleo_app_log_path.c reads it
--                   from a configuration file, and platform/lexleo_app_log_path_linux.c has the
--                   default path and makes the parent directories; below it Platforms has the files of
--                   macOS and Windows beside it
--   OsalFile        the file operations of the POSIX backend, src/foundation/osal/osal_file/src/
--                   osal_file_posix.c: every operation and the mapping of errno, over the calls of
--                   the C library, which are the parameter `CStdio`
--   Vm              the virtual machine's handle (src/lexleo_vm/src): lexleo_vm_cr.c and
--                   lexleo_vm_borrower.c
--   App             the application (src/lexleo_app/src): lexleo_app_cr.c, with its streams in Streams,
--                   the factory and creators in Owner, and the initialisation in Init; Run has
--                   lexleo_app_run (lexleo_app_borrower.c) and cli_main (src/frontend/cli/src/cli.c)
--   HashtableKey, Hashtable
--                   the hash table of the archived core, src/legacy/foundation_legacy/data_structures/
--                   src/hashtable.c, with list_free_list of list.c: the keys, and the table with its
--                   operations; below Hashtable, Map takes the table as a finite map
--   Symtab          the symbol tables of the archived core, src/legacy/core_legacy/symtab/src/symtab.c,
--                   which are scopes over hash tables
--   Ast             the syntax trees of the archived core, src/legacy/core_legacy/ast/src/ast.c: leaves
--                   and error nodes, below it Children and Construction for the nodes with children
--   RuntimeSession  the lists of the archived core, src/legacy/foundation_legacy/data_structures/src/
--                   list.c, and the pools of symbols and trees of a session, src/legacy/core_legacy/
--                   runtime_session/src/runtime_session.c
--   Prelude         Boolean tests, lists and texts over the native numbers
--   Tests           concrete data, tests, and the theorems at concrete inputs
--
-- How the code is read. A function that touches the heap or the files is a function from the world
-- to a run, which is either a result with the world after it, or an abort. A failed LEXLEO_ASSERT,
-- the release of something that is not live and the use of a null backend are aborts. An out
-- parameter is a component of the result, `none` where it is NULL; a null status pointer only drops
-- the status, so that it is not modelled. A handle is a record with the address of its block; the
-- pointers that it borrows (operation tables, memory operations) are not in it, since every table is
-- that of the one world. The world does not fix what the environment answers: which requests for
-- memory are granted, which status a file call reports and which bytes a grown block contains are
-- arbitrary functions of the number of requests so far, over which the theorems quantify. Reading,
-- writing and flushing an open file or a standard stream are parameters (`FileOps`, `StdioOps`). A
-- table of functions with a backend (`stream_vtbl_t` and `void *`) is a data type with one
-- constructor for each adapter, and a call through it is a function by cases; in the same way
-- `backend_ctor` with its user data is a data type, and arguments of the wrong type abort.
--
-- What a component owns is a list of resources, and `Delta gained lost` says of what is held in two
-- worlds that exactly these were taken and given back between them, each counted. `Returns P` says that a run
-- ends without an abort in a result with `P`. `Builds ok own P` is the contract of a constructor: OK
-- with a handle that satisfies `P` and owns exactly what was taken, or another status with no handle
-- and nothing held.
--
-- Bounds and fuel. `size_t` has 64 bits (`size_max`), and a write checks its length against it as
-- the code does. An allocation is one request, whose byte count of sizeof is modelled
-- only where it can wrap, in the growth of a node's list of children. The loop that
-- doubles a capacity runs on 65 rounds, since 64 doublings of a positive capacity pass every
-- `size_t`. The year loops of the timestamp run on the number of days, of which every round takes at
-- least 365, and the month loop on 12 rounds; a step of the year past `int32_t` is undefined. The
-- identifiers and paths are lists of byte values without the terminating zero.
--
-- The application takes its log path from what `gets` answers for the configuration file and what
-- `getenv("HOME")` answers, both arguments. A stream is a value with its address, so that the streams
-- which the machine shares with the application are copies with the same address; the pointer test
-- of lexleo_app_destroy compares addresses. A run of fields that are filled only where empty
-- is a chain of steps, each of which goes on from what the one before it left.
--
-- What the time service reports is an argument of a log call. The text that snprintf makes of a date
-- is written out, on fuel above the number whose digits are taken.
--
-- An open file of the world is the FILE of the C library together with the OSAL_FILE block that the
-- backend wraps round it. A close gives both back on OK; on any other status the backend keeps the
-- block, and since no caller keeps the handle, the block is an orphan: the world lists the closes with
-- their statuses, `orphans` are the blocks of those that failed, `live` is what is still held, and
-- `allocated` is both. `Settles gained lost` is `Delta` for everything that is allocated, with the new
-- orphans counted.
--
-- What `gets` stores of a configuration file is a list of pieces of at most 254 bytes, which end
-- behind a newline or where the buffer is full (`gets_lines`).
--
-- The archived core (src/legacy) is not part of the active program, as its README says; its data
-- structures are modelled as the code on which the language itself will stand. A `void *` key is its
-- address with the text that stands there, a bucket is a list of entries with their addresses, and a
-- callback that destroys a value is a function on the world, of which the theorems ask that it gives
-- back what the value owns. A node of a syntax tree is a constructor for what its union holds, so that
-- the destruction of one whose type and union do not agree is an abort; the sentinel is a constructor
-- too, since it is compared by its address.
--
-- Not modelled: the implementations of the other
-- operation tables (src/foundation/osal) and the Windows file backend, the old streams
-- and loggers (src/foundation/stream, src/foundation/logger), the old application entry
-- (lexleo_app_old.c), and of the archived core the
-- environments, the parser, the resolver, the interpreter and the rest of the session (legacy). The virtual machine runs nothing yet: its run is a placeholder in the source.
pub mod Prelude
pub mod Status
pub mod Memory
pub mod DynamicBuffer
pub mod FsStream
pub mod StdioStream
pub mod Stream
pub mod StreamFactory
pub mod StreamCreator
pub mod UtcTimestamp
pub mod Logger
pub mod LogPath
pub mod Vm
pub mod App
pub mod OsalFile
pub mod HashtableKey
pub mod Hashtable
pub mod Symtab
pub mod Ast
pub mod RuntimeSession
pub mod Tests
