-- ===== src/StreamCreator.antt =====
-- The stream creators: owner-facing handles that create streams of one kind through a borrowed
-- factory (src/foundation/stream_new/port, the creators folders). The factory that a creator borrows
-- is an argument of its operations.
pub mod Ownership
pub mod Contract
use lex_leo.Prelude.{
  ℕ, Bool, true, false, not, Option, none, some, List, ◌==◌, if◌then◌else◌, length,
}
use lex_leo.Status.{StreamStatus, StreamFactoryStatus}
use lex_leo.Memory.{M, pure, fail, ◌>>=◌, ◌>>◌, assert, calloc, free}
use lex_leo.FsStream.{supported_mode, valid_path}
use lex_leo.StdioStream.{StreamStandardStreamKind}
use lex_leo.Stream.{Stream}
use lex_leo.StreamFactory.{
  CreatorArgs, no_args, regular_file, standard_stream, StreamFactory, stream_factory_create_stream,
}

-- `stream_creator_generic_t`, without the factory and the memory operations.
pub record StreamCreator : Type 0 where
  pub addr : ℕ
  pub adapter_id : List ℕ

new_creator : List ℕ → Option ℕ → M (StreamFactoryStatus × Option StreamCreator)
new_creator id none = pure (StreamFactoryStatus.oom, none)
new_creator id (some p) = pure (StreamFactoryStatus.ok, some (record { addr = p; adapter_id = id }))

unfoldable pub stream_create_standard_stream_creator :
    List ℕ → M (StreamFactoryStatus × Option StreamCreator)
unfolding new_creator
stream_create_standard_stream_creator id = do
  assert (not (length id == 0))
  calloc >>= new_creator id

unfoldable pub stream_create_regular_file_creator :
    List ℕ → M (StreamFactoryStatus × Option StreamCreator)
unfolding new_creator
stream_create_regular_file_creator id = do assert (not (length id == 0)); calloc >>= new_creator id

unfoldable pub stream_create_dynamic_buffer_creator :
    List ℕ → M (StreamFactoryStatus × Option StreamCreator)
unfolding new_creator
stream_create_dynamic_buffer_creator id = do
  assert (not (length id == 0))
  calloc >>= new_creator id

unfoldable pub stream_destroy_standard_stream_creator : Option StreamCreator → M (Unit {0})
stream_destroy_standard_stream_creator none = pure tt
stream_destroy_standard_stream_creator (some c) = free c.addr

unfoldable pub stream_destroy_regular_file_creator : Option StreamCreator → M (Unit {0})
stream_destroy_regular_file_creator none = pure tt
stream_destroy_regular_file_creator (some c) = free c.addr

unfoldable pub stream_destroy_dynamic_buffer_creator : Option StreamCreator → M (Unit {0})
stream_destroy_dynamic_buffer_creator none = pure tt
stream_destroy_dynamic_buffer_creator (some c) = free c.addr

-- The statuses of registration are not those of a creation: they fail an assertion.
unfoldable pub stream_factory_status_to_stream_status : StreamFactoryStatus → M StreamStatus
stream_factory_status_to_stream_status StreamFactoryStatus.ok = pure StreamStatus.ok
stream_factory_status_to_stream_status StreamFactoryStatus.eof = pure StreamStatus.eof
stream_factory_status_to_stream_status StreamFactoryStatus.invalid = pure StreamStatus.invalid
stream_factory_status_to_stream_status StreamFactoryStatus.not_found = pure StreamStatus.not_found
stream_factory_status_to_stream_status StreamFactoryStatus.no_backend = pure StreamStatus.no_backend
stream_factory_status_to_stream_status StreamFactoryStatus.io_error = pure StreamStatus.io_error
stream_factory_status_to_stream_status StreamFactoryStatus.oom = pure StreamStatus.oom
stream_factory_status_to_stream_status StreamFactoryStatus.already_exists = fail
stream_factory_status_to_stream_status StreamFactoryStatus.full = fail

in_stream_status : StreamFactoryStatus × Option Stream → M (StreamStatus × Option Stream)
unfolding stream_factory_status_to_stream_status
in_stream_status (st, o) = do st' ← stream_factory_status_to_stream_status st; pure (st', o)

unfoldable pub stream_dynamic_buffer_creator_create :
    StreamFactory → StreamCreator → M (StreamStatus × Option Stream)
unfolding in_stream_status
stream_dynamic_buffer_creator_create f c =
    stream_factory_create_stream f c.adapter_id no_args >>= in_stream_status

unfoldable pub stream_standard_stream_creator_create :
    StreamFactory → StreamCreator → StreamStandardStreamKind → M (StreamStatus × Option Stream)
unfolding in_stream_status
stream_standard_stream_creator_create f c kind =
    stream_factory_create_stream f c.adapter_id (standard_stream kind) >>= in_stream_status

create_regular_file :
    StreamFactory → StreamCreator → Option (List ℕ) → List ℕ → M (StreamStatus × Option Stream)
unfolding in_stream_status
create_regular_file f c path mode =
    if valid_path path
    then stream_factory_create_stream f c.adapter_id (regular_file path mode) >>= in_stream_status
    else pure (StreamStatus.invalid, none)

unfoldable pub stream_regular_file_creator_create :
    StreamFactory
    → StreamCreator
    → (path : Option (List ℕ)) (mode : List ℕ) → M (StreamStatus × Option Stream)
unfolding create_regular_file
stream_regular_file_creator_create f c path mode = do
  assert (supported_mode mode)
  create_regular_file f c path mode
