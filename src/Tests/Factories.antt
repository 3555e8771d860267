-- ===== src/Tests/Factories.antt =====
-- Streams, the factory and the creators on concrete inputs.
use lex_leo.Prelude.{◌≡◌, refl, true, some, [], arith, codes}
use lex_leo.Status.{StreamStatus, StreamFactoryStatus}
use lex_leo.Memory.{done}
use lex_leo.Memory.Balance.{Returns, Settles, Reports}
use lex_leo.FsStream.{supported_mode, valid_path}
use lex_leo.Stream.{stream_destroy}
use lex_leo.Stream.Ownership.{own_stream, stream_destroy-Settles}
use lex_leo.StreamFactory.{
  fs_ctor, regular_file, StreamFactory, stream_factory_add_adapter,
  stream_factory_get_adapter_provider, contains_id, valid_id, stream_factory_create_stream,
}
use lex_leo.StreamFactory.Registry.{IsRegistry, AddOutcome, stream_factory_add_adapter-AddOutcome}
use lex_leo.StreamFactory.Creation.{Created, stream_factory_create_stream-Created}
use lex_leo.StreamCreator.{stream_regular_file_creator_create}
use lex_leo.StreamCreator.Contract.{
  RegularFileMade, stream_regular_file_creator_create-RegularFileMade,
  stream_regular_file_creator_create_missing,
}
use lex_leo.Tests.{
  console_provider, mixed_factory, world_of, empty_world, no_file_world, buffer_stream,
  memory_provider, file_provider, file_factory, file_creator,
}

file_factory-IsRegistry : IsRegistry file_factory
unfolding contains_id
file_factory-IsRegistry = record { bounded = omega arith; distinct = (refl, tt) }

found_file_provider :
    stream_factory_get_adapter_provider file_factory (codes "fs") ≡ some file_provider
unfolding stream_factory_get_adapter_provider
found_file_provider = refl

memory_id : valid_id (codes "memory") ≡ true
unfolding valid_id
memory_id = refl

reading : supported_mode (codes "rb") ≡ true
unfolding supported_mode
reading = refl

a_path : valid_path (some (codes "a.txt")) ≡ true
unfolding valid_path
a_path = refl

stream_destroy-Settles_example :
    Returns
      (λ _ w'. Settles [] (own_stream buffer_stream) (world_of (own_stream buffer_stream)) w')
      (stream_destroy (some buffer_stream) (world_of (own_stream buffer_stream)))
stream_destroy-Settles_example =
    stream_destroy-Settles buffer_stream (world_of (own_stream buffer_stream)) (λ r. omega arith)

stream_factory_add_adapter-AddOutcome_example :
    (st : StreamFactoryStatus) × (f' : StreamFactory) × (stream_factory_add_adapter file_factory
        (codes "memory")
        memory_provider
        empty_world
      ≡ done (st, f') empty_world)
    × AddOutcome file_factory (codes "memory") memory_provider st f'
stream_factory_add_adapter-AddOutcome_example =
    stream_factory_add_adapter-AddOutcome file_factory (codes "memory") memory_provider empty_world
      memory_id file_factory-IsRegistry

stream_factory_create_stream-Created_example :
    Returns
      (λ (st, o) w'.
        Created fs_ctor (regular_file (some (codes "a.txt")) (codes "rb")) empty_world st o w')
      (stream_factory_create_stream file_factory
        (codes "fs")
        (regular_file (some (codes "a.txt")) (codes "rb"))
        empty_world)
stream_factory_create_stream-Created_example =
    stream_factory_create_stream-Created file_factory (codes "fs")
      (regular_file (some (codes "a.txt")) (codes "rb")) file_provider empty_world (omega arith)
      found_file_provider reading

stream_regular_file_creator_create-RegularFileMade_example :
    Returns
      (λ (st, o) w'. RegularFileMade (some (codes "a.txt")) (codes "rb") empty_world st o w')
      (stream_regular_file_creator_create file_factory file_creator
        (some (codes "a.txt"))
        (codes "rb")
        empty_world)
stream_regular_file_creator_create-RegularFileMade_example =
    stream_regular_file_creator_create-RegularFileMade file_factory file_creator file_provider
      (some (codes "a.txt")) (codes "rb") empty_world (omega arith) found_file_provider refl reading

stream_regular_file_creator_create_missing_example :
    Returns
      (λ (st, o) w'. Reports StreamStatus.io_error st o)
      (stream_regular_file_creator_create file_factory file_creator
        (some (codes "a.txt"))
        (codes "rb")
        no_file_world)
stream_regular_file_creator_create_missing_example =
    stream_regular_file_creator_create_missing file_factory file_creator file_provider
      (some (codes "a.txt")) (codes "rb") no_file_world (omega arith) found_file_provider refl
      reading a_path refl refl

found_memory_provider :
    stream_factory_get_adapter_provider mixed_factory (codes "memory") ≡ some memory_provider
unfolding stream_factory_get_adapter_provider
found_memory_provider = refl

found_console_provider :
    stream_factory_get_adapter_provider mixed_factory (codes "stdio") ≡ some console_provider
unfolding stream_factory_get_adapter_provider
found_console_provider = refl
