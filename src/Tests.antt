-- ===== src/Tests.antt =====
-- Concrete runs of the stream modules: the data, tests that evaluate, and the theorems at concrete
-- inputs (in the modules below).
pub mod Buffers
pub mod Factories
pub mod Dates
pub mod Logs
pub mod Apps
pub mod Files
pub mod Sessions
pub mod Tables
pub mod Symbols
pub mod Trees
use lex_leo.Prelude.{ℕ, true, none, some, List, [], ◌∷◌, codes}
use lex_leo.Status.{OsalFileStatus}
use lex_leo.Memory.{Resource, World}
use lex_leo.Memory.Balance.{count}
use lex_leo.DynamicBuffer.{DynamicBufferStream}
use lex_leo.FsStream.{FsStream}
use lex_leo.StdioStream.{StreamStandardStreamKind, StdioStream}
use lex_leo.Stream.{Backend, dynamic_buffer, fs, Stream}
use lex_leo.StreamFactory.{
  dynamic_buffer_ctor, fs_ctor, stdio_ctor, StreamAdapterProvider, StreamFactory,
}
use lex_leo.StreamCreator.{StreamCreator}

-- A world that holds exactly `own`, in which every request succeeds.
abbrev pub world_of : List Resource → World
world_of own = record {
  next = 10;
  live = λ r. count r own;
  grants = λ _. true;
  answers = λ _. OsalFileStatus.ok;
  junk = λ _. 0;
  closes = [];
}

abbrev pub empty_world : World
empty_world = world_of []

-- A world without the file that is asked for.
abbrev pub no_file_world : World
no_file_world = record empty_world { answers = λ _. OsalFileStatus.noent }

-- Two bytes written, one of them read, in a buffer of four.
abbrev pub two_bytes : DynamicBufferStream
two_bytes = record {
  addr = 0;
  dbuf = record { buf = some 1; bytes = 7 ∷ 8 ∷ 0 ∷ 0 ∷ []; cap = 4; len = 2; read_pos = 1 };
}

abbrev pub open_file_handle : FsStream
open_file_handle = record { addr = 3; file = some 4 }

abbrev pub stdout_handle : StdioStream
stdout_handle = record { addr = 5; stdio = some StreamStandardStreamKind.stdout }

abbrev pub buffer_stream : Stream
buffer_stream = record { addr = 6; backend = some (dynamic_buffer two_bytes) }

abbrev pub memory_provider : StreamAdapterProvider
memory_provider = record { addr = 20; ud = 21; backend_ctor = dynamic_buffer_ctor 256 }

abbrev pub file_provider : StreamAdapterProvider
file_provider = record { addr = 22; ud = 23; backend_ctor = fs_ctor }

-- A registry of two with one provider.
abbrev pub file_factory : StreamFactory
file_factory = record {
  addr = 30;
  ctor_ud = 31;
  reg_entries = 32;
  entries = (codes "fs", file_provider) ∷ [];
  cap = 2;
}

abbrev pub file_creator : StreamCreator
file_creator = record { addr = 40; adapter_id = codes "fs" }

abbrev pub console_provider : StreamAdapterProvider
console_provider = record { addr = 24; ud = 25; backend_ctor = stdio_ctor }

-- A registry of two that is full.
abbrev pub mixed_factory : StreamFactory
mixed_factory = record {
  addr = 33;
  ctor_ud = 34;
  reg_entries = 35;
  entries = (codes "memory", memory_provider) ∷ (codes "stdio", console_provider) ∷ [];
  cap = 2;
}

abbrev pub memory_creator : StreamCreator
memory_creator = record { addr = 41; adapter_id = codes "memory" }

abbrev pub console_creator : StreamCreator
console_creator = record { addr = 42; adapter_id = codes "stdio" }
