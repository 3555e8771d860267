-- ===== src/App/Owner.antt =====
-- The factory and the creators that the application owns (lexleo_app_init_stream_owner_opaque of
-- lexleo_app_cr.c). On each failure the code destroys what it made and sets the fields back to
-- `NULL`, so that the owner is as before.
pub mod Outcome
pub mod LastCreator
pub mod Ownership
use lex_leo.Prelude.{ℕ, Bool, not, ◌&&◌, Option, none, some, codes, is_some}
use lex_leo.Status.{
  StreamFactoryStatus, StdioStreamStatus, FsStreamStatus, DynamicBufferStreamStatus,
}
use lex_leo.Memory.{M, pure, fail, ◌>>=◌, ◌>>◌, assert}
use lex_leo.DynamicBuffer.Lifetime.{dynamic_buffer_stream_default_cfg}
use lex_leo.StreamFactory.{
  StreamAdapterProvider, StreamFactory, stream_create_factory, stream_destroy_factory,
  stream_factory_add_adapter, stream_destroy_adapter_provider,
}
use lex_leo.StreamFactory.Provider.{
  stdio_stream_create_adapter_provider, fs_stream_create_adapter_provider,
  dynamic_buffer_stream_create_adapter_provider,
}
use lex_leo.StreamCreator.{
  StreamCreator, stream_create_standard_stream_creator, stream_create_regular_file_creator,
  stream_create_dynamic_buffer_creator, stream_destroy_standard_stream_creator,
  stream_destroy_regular_file_creator,
}
use lex_leo.App.{LexleoAppStreamOwner}

unfoldable pub stream_default_factory_cfg : ℕ
stream_default_factory_cfg = 16

abbrev pub Owners : Type 0
Owners = Option LexleoAppStreamOwner

module _ (owner : LexleoAppStreamOwner) where
  -- From the end of the function to its beginning: what follows each call, for each of its results.
  buffer_creator_made :
      StreamFactory
      → StreamCreator
      → StreamCreator
      → StreamFactoryStatus × Option StreamCreator
      → M Owners
  buffer_creator_made f std file (StreamFactoryStatus.ok, some buffer) = pure (
      some (record owner {
        stream_factory = some f;
        standard_stream_creator = some std;
        regular_file_creator = some file;
        dynamic_buffer_creator = some buffer;
      }))
  buffer_creator_made f std file (StreamFactoryStatus.ok, none) = fail
  buffer_creator_made f std file (st, o) = do
    stream_destroy_standard_stream_creator (some std)
    stream_destroy_regular_file_creator (some file)
    stream_destroy_factory (some f)
    pure none

  buffer_added :
      StreamAdapterProvider
      → StreamCreator
      → StreamCreator
      → StreamFactoryStatus × StreamFactory
      → M Owners
  unfolding buffer_creator_made
  buffer_added p std file (StreamFactoryStatus.ok, f) =
      stream_create_dynamic_buffer_creator (codes "dbs") >>= buffer_creator_made f std file
  buffer_added p std file (st, f) = do
    stream_destroy_standard_stream_creator (some std)
    stream_destroy_regular_file_creator (some file)
    stream_destroy_adapter_provider p
    stream_destroy_factory (some f)
    pure none

  pub buffer_provided :
      StreamFactory
      → StreamCreator
      → StreamCreator
      → DynamicBufferStreamStatus × Option StreamAdapterProvider
      → M Owners
  unfolding buffer_added
  buffer_provided f std file (DynamicBufferStreamStatus.ok, some p) =
      stream_factory_add_adapter f (codes "dbs") p >>= buffer_added p std file
  buffer_provided f std file (DynamicBufferStreamStatus.ok, none) = fail
  buffer_provided f std file (st, o) = do
    stream_destroy_standard_stream_creator (some std)
    stream_destroy_regular_file_creator (some file)
    stream_destroy_factory (some f)
    pure none

  file_creator_made :
      StreamFactory → StreamCreator → StreamFactoryStatus × Option StreamCreator → M Owners
  unfolding buffer_provided
  file_creator_made f std (StreamFactoryStatus.ok, some file) =
      dynamic_buffer_stream_create_adapter_provider dynamic_buffer_stream_default_cfg
      >>= buffer_provided f std file
  file_creator_made f std (StreamFactoryStatus.ok, none) = fail
  file_creator_made f std (st, o) = do
    stream_destroy_standard_stream_creator (some std)
    stream_destroy_factory (some f)
    pure none

  file_added :
      StreamAdapterProvider → StreamCreator → StreamFactoryStatus × StreamFactory → M Owners
  unfolding file_creator_made
  file_added p std (StreamFactoryStatus.ok, f) =
      stream_create_regular_file_creator (codes "fs") >>= file_creator_made f std
  file_added p std (st, f) = do
    stream_destroy_standard_stream_creator (some std)
    stream_destroy_adapter_provider p
    stream_destroy_factory (some f)
    pure none

  file_provided :
      StreamFactory → StreamCreator → FsStreamStatus × Option StreamAdapterProvider → M Owners
  unfolding file_added
  file_provided f std (FsStreamStatus.ok, some p) =
      stream_factory_add_adapter f (codes "fs") p >>= file_added p std
  file_provided f std (FsStreamStatus.ok, none) = fail
  file_provided f std (st, o) = do
    stream_destroy_standard_stream_creator (some std)
    stream_destroy_factory (some f)
    pure none

  standard_creator_made : StreamFactory → StreamFactoryStatus × Option StreamCreator → M Owners
  unfolding file_provided
  standard_creator_made f (StreamFactoryStatus.ok, some std) =
      fs_stream_create_adapter_provider >>= file_provided f std
  standard_creator_made f (StreamFactoryStatus.ok, none) = fail
  standard_creator_made f (st, o) = do stream_destroy_factory (some f); pure none

  standard_added : StreamAdapterProvider → StreamFactoryStatus × StreamFactory → M Owners
  unfolding standard_creator_made
  standard_added p (StreamFactoryStatus.ok, f) =
      stream_create_standard_stream_creator (codes "stdio") >>= standard_creator_made f
  standard_added p (st, f) = do
    stream_destroy_adapter_provider p
    stream_destroy_factory (some f)
    pure none

  standard_provided : StreamFactory → StdioStreamStatus × Option StreamAdapterProvider → M Owners
  unfolding standard_added
  standard_provided f (StdioStreamStatus.ok, some p) =
      stream_factory_add_adapter f (codes "stdio") p >>= standard_added p
  standard_provided f (StdioStreamStatus.ok, none) = fail
  standard_provided f (st, o) = do stream_destroy_factory (some f); pure none

  factory_made : StreamFactoryStatus × Option StreamFactory → M Owners
  unfolding standard_provided
  factory_made (StreamFactoryStatus.ok, some f) =
      stdio_stream_create_adapter_provider >>= standard_provided f
  factory_made (StreamFactoryStatus.ok, none) = fail
  factory_made (st, o) = pure none

  -- The owner, or `none` where C returns false.
  unfoldable pub lexleo_app_init_stream_owner_opaque : M Owners
  unfolding factory_made
  lexleo_app_init_stream_owner_opaque = do
    assert (
        not (is_some owner.stream_factory)
        && (not (is_some owner.standard_stream_creator)
            && (not (is_some owner.regular_file_creator)
                && not (is_some owner.dynamic_buffer_creator))))
    stream_create_factory stream_default_factory_cfg >>= factory_made
