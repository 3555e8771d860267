-- ===== src/StreamCreator/Contract.antt =====
-- What the creation of streams through a creator reports and owns.
use lex_leo.Prelude.{
  ℕ, ◌≤◌, suc, ◌<◌, ◌≡◌, ◌≢◌, refl, true, Option, none, some, List, [], length, Bool-cases, inl,
  inr, arith,
}
use mathlib.Core.Path.{subst, sym}
use lex_leo.Status.{
  StreamStatus, StreamFactoryStatus, OsalFileStatus, stream_status_to_stream_factory_status,
}
use lex_leo.Memory.{World, Run, and_then}
use lex_leo.Memory.Balance.{
  Returns, returns, bind, weaken, Delta, Settles, Delta-Settles, Built, built, failed, Builds,
  Reports, reports,
}
use lex_leo.FsStream.{supported_mode, valid_path}
use lex_leo.Stream.{Stream}
use lex_leo.Stream.Ownership.{own_stream}
use lex_leo.StreamFactory.{
  BackendCtor, dynamic_buffer_ctor, fs_ctor, stdio_ctor, CreatorArgs, no_args, regular_file,
  standard_stream, StreamAdapterProvider, StreamFactory, stream_factory_get_adapter_provider,
  stream_factory_create_stream,
}
use lex_leo.DynamicBuffer.{size_max}
use lex_leo.StdioStream.{StreamStandardStreamKind}
use lex_leo.StreamFactory.Creation.{
  StreamOver, Created, created, not_created, stream_factory_create_stream-Created,
  stream_factory_create_stream_missing, Suits,
}
use lex_leo.StreamCreator.{
  StreamCreator, in_stream_status, stream_dynamic_buffer_creator_create,
  stream_standard_stream_creator_create, stream_regular_file_creator_create,
}

in_stream_status-Builds :
    (ctor : BackendCtor) (args : CreatorArgs) (w : World)
    → {st : StreamFactoryStatus} {o : Option Stream} {w' : World} → Created ctor args w st o w'
    → Returns
        (Builds StreamStatus.ok own_stream (StreamOver ctor args) w)
        (in_stream_status (st, o) w')
unfolding in_stream_status stream_status_to_stream_factory_status
in_stream_status-Builds ctor args w (created p d) = returns (built p d)
in_stream_status-Builds ctor args w (not_created StreamStatus.ok ne e) = absurd (ne refl)
in_stream_status-Builds ctor args w (not_created _ ne e) =
    returns (failed ne (λ r. omega (arith, e r)))

-- A dynamic-buffer creator with a nonempty identifier, for which its factory has a provider of
-- dynamic buffers of a positive capacity within `size_t`, never aborts. On OK the stream owns exactly
-- what was taken for it and stands over an empty, well-formed buffer of that capacity; on any other
-- status nothing that was taken is still held.
pub stream_dynamic_buffer_creator_create-Builds :
    (f : StreamFactory) (c : StreamCreator) (p : StreamAdapterProvider) (cap : ℕ) (w : World)
    → 0 < length c.adapter_id
    → stream_factory_get_adapter_provider f c.adapter_id ≡ some p
    → p.backend_ctor ≡ dynamic_buffer_ctor cap
    → 0 < cap
    → cap ≤ size_max
    → Returns
        (Builds StreamStatus.ok own_stream (StreamOver (dynamic_buffer_ctor cap) no_args) w)
        (stream_dynamic_buffer_creator_create f c w)
unfolding stream_dynamic_buffer_creator_create
stream_dynamic_buffer_creator_create-Builds f c p cap w named found is_buffer pos bounded =
    let suits : Suits p.backend_ctor no_args =
      subst (λ k. Suits k no_args) (sym is_buffer) (pos, bounded) in
    bind (stream_factory_create_stream-Created f c.adapter_id no_args p w named found suits)
      λ (st, o) w' k.
        subst
          (λ k.
            Returns (Builds StreamStatus.ok own_stream (StreamOver k no_args) w)
              (in_stream_status (st, o) w'))
          is_buffer (in_stream_status-Builds p.backend_ctor no_args w k)

-- A standard-stream creator with a nonempty identifier, for which its factory has a provider of
-- standard streams, never aborts. On OK the stream owns exactly what was taken for it and stands over
-- the stream of the kind asked for; on any other status nothing that was taken is still held.
pub stream_standard_stream_creator_create-Builds :
    (f : StreamFactory) (c : StreamCreator) (p : StreamAdapterProvider)
    (kind : StreamStandardStreamKind) (w : World)
    → 0 < length c.adapter_id
    → stream_factory_get_adapter_provider f c.adapter_id ≡ some p
    → p.backend_ctor ≡ stdio_ctor
    → Returns
        (Builds StreamStatus.ok own_stream (StreamOver stdio_ctor (standard_stream kind)) w)
        (stream_standard_stream_creator_create f c kind w)
unfolding stream_standard_stream_creator_create
stream_standard_stream_creator_create-Builds f c p kind w named found is_stdio =
    let args = standard_stream kind in
    let suits : Suits p.backend_ctor args = subst (λ k. Suits k args) (sym is_stdio) tt in
    bind (stream_factory_create_stream-Created f c.adapter_id args p w named found suits)
      λ (st, o) w' k.
        subst
          (λ k.
            Returns (Builds StreamStatus.ok own_stream (StreamOver k args) w)
              (in_stream_status (st, o) w'))
          is_stdio (in_stream_status-Builds p.backend_ctor args w k)

regular_file_creator_create-Builds :
    (f : StreamFactory) (c : StreamCreator) (p : StreamAdapterProvider) (path : Option (List ℕ))
    (mode : List ℕ) (w : World)
    → 0 < length c.adapter_id
    → stream_factory_get_adapter_provider f c.adapter_id ≡ some p
    → p.backend_ctor ≡ fs_ctor
    → supported_mode mode ≡ true
    → Returns
        (Builds StreamStatus.ok own_stream (StreamOver fs_ctor (regular_file path mode)) w)
        (stream_regular_file_creator_create f c path mode w)
unfolding stream_regular_file_creator_create
regular_file_creator_create-Builds f c p path mode w named found is_fs supported =
    let args = regular_file path mode in
    let suits : Suits p.backend_ctor args = subst (λ k. Suits k args) (sym is_fs) supported in
    rw supported (elim (Bool-cases (valid_path path)) [
      | inr bad ↦ rw bad (returns (failed (cc) (λ r. refl)))
      | inl good ↦ rw good (
          bind (stream_factory_create_stream-Created f c.adapter_id args p w named found suits)
            λ (st, o) w' k.
              subst
                (λ k.
                  Returns (Builds StreamStatus.ok own_stream (StreamOver k args) w)
                    (in_stream_status (st, o) w'))
                is_fs (in_stream_status-Builds p.backend_ctor args w k))
    ])

-- The outcome of a creation: a stream with exactly what was taken for it, over a backend with an open
-- file, or another status, and nothing allocated or open but orphans.
pub data RegularFileMade (path : Option (List ℕ)) (mode : List ℕ) (w : World)
    : StreamStatus → Option Stream → World → Type 0 where
  file_made :
      {s : Stream} {w' : World}
      → StreamOver fs_ctor (regular_file path mode) s
      → Delta (own_stream s) [] w w'
      → RegularFileMade path mode w StreamStatus.ok (some s) w'
  file_not_made :
      {st : StreamStatus} {w' : World}
      → st ≢ StreamStatus.ok
      → Settles [] [] w w'
      → RegularFileMade path mode w st none w'

Built-RegularFileMade :
    (path : Option (List ℕ)) (mode : List ℕ) (w : World) (st : StreamStatus) (o : Option Stream)
    (w' : World)
    → Built StreamStatus.ok own_stream (StreamOver fs_ctor (regular_file path mode)) w st o w'
    → RegularFileMade path mode w st o w'
Built-RegularFileMade path mode w _ _ w' (built over d) = file_made over d
Built-RegularFileMade path mode w _ _ w' (failed ne b) =
    file_not_made ne (Delta-Settles [] [] w w' b)

-- A regular-file creator with a nonempty identifier, for which its factory has a provider of file
-- backends, never aborts in a supported mode, whatever the path and whatever the allocator and the
-- file system answer: every status it meets is translated. On OK the stream owns exactly what was
-- taken for it and stands over a backend with an open file; on any other status everything that was
-- taken is released, but for the OSAL_FILE block of a close that failed, which stays allocated.
pub stream_regular_file_creator_create-RegularFileMade :
    (f : StreamFactory) (c : StreamCreator) (p : StreamAdapterProvider) (path : Option (List ℕ))
    (mode : List ℕ) (w : World)
    → 0 < length c.adapter_id
    → stream_factory_get_adapter_provider f c.adapter_id ≡ some p
    → p.backend_ctor ≡ fs_ctor
    → supported_mode mode ≡ true
    → Returns
        (λ (st, o) w'. RegularFileMade path mode w st o w')
        (stream_regular_file_creator_create f c path mode w)
stream_regular_file_creator_create-RegularFileMade f c p path mode w named found is_fs supported =
    weaken (regular_file_creator_create-Builds f c p path mode w named found is_fs supported)
      λ (st, o) w' b. Built-RegularFileMade path mode w st o w' b

io_error_translated :
    (m : Run (StreamFactoryStatus × Option Stream))
    → Returns (λ (st, o) w'. Reports StreamFactoryStatus.io_error st o) m
    → Returns (λ (st, o) w'. Reports StreamStatus.io_error st o) (and_then m in_stream_status)
unfolding in_stream_status
io_error_translated m (returns {a = (_, _)} reports) = returns reports

-- Through a regular-file creator with a nonempty identifier, for which its factory has a provider of
-- file backends, at a valid path and in a supported mode, where the handle's allocation succeeds and
-- the operating system reports NOENT for the open, the status is IO_ERROR and there is no stream.
pub stream_regular_file_creator_create_missing :
    (f : StreamFactory) (c : StreamCreator) (p : StreamAdapterProvider) (path : Option (List ℕ))
    (mode : List ℕ) (w : World)
    → 0 < length c.adapter_id
    → stream_factory_get_adapter_provider f c.adapter_id ≡ some p
    → p.backend_ctor ≡ fs_ctor
    → supported_mode mode ≡ true
    → valid_path path ≡ true
    → w.grants w.next ≡ true
    → w.answers (suc w.next) ≡ OsalFileStatus.noent
    → Returns
        (λ (st, o) w'. Reports StreamStatus.io_error st o)
        (stream_regular_file_creator_create f c path mode w)
unfolding stream_regular_file_creator_create
stream_regular_file_creator_create_missing f c p path mode w named found is_fs supported good room
      missing =
    rw (supported, good)
      (io_error_translated (stream_factory_create_stream f c.adapter_id (regular_file path mode) w)
        (stream_factory_create_stream_missing f c.adapter_id p path mode w named found is_fs
          supported good room missing))
