-- ===== src/Status.antt =====
-- The status codes that cross the module boundaries (stream_status_type.h,
-- stream_factory_status_type.h, osal_file_types.h), and the functions that
-- translate one into another (src/foundation/stream_new).

pub data StreamStatus : Type 0 where
  ok eof invalid not_found no_backend io_error oom : StreamStatus

pub data StreamFactoryStatus : Type 0 where
  ok eof invalid not_found no_backend io_error oom already_exists full : StreamFactoryStatus

pub data OsalFileStatus : Type 0 where
  ok eof invalid noent perm exists nospc nametoolong notdir isdir badf fbig intr mfile nfile loop
        rofs spipe xdev nodev nxio stale oom io :
      OsalFileStatus

pub data FsStreamStatus : Type 0 where
  ok eof invalid not_found io_error oom : FsStreamStatus

pub data DynamicBufferStreamStatus : Type 0 where
  ok oom : DynamicBufferStreamStatus

pub data StdioStreamStatus : Type 0 where
  ok oom : StdioStreamStatus

-- fs_stream_cr.c: `map_osal_file_status`, for the operations on an open file.
unfoldable pub map_osal_file_status : OsalFileStatus → StreamStatus
map_osal_file_status OsalFileStatus.ok = StreamStatus.ok
map_osal_file_status OsalFileStatus.eof = StreamStatus.eof
map_osal_file_status OsalFileStatus.invalid = StreamStatus.invalid
map_osal_file_status OsalFileStatus.oom = StreamStatus.oom
map_osal_file_status OsalFileStatus.noent = StreamStatus.not_found
map_osal_file_status _ = StreamStatus.io_error

-- fs_stream_cr.c: `fs_stream_status_from_osal_file_status`, for the opening of a file.
unfoldable pub fs_stream_status_from_osal_file_status : OsalFileStatus → FsStreamStatus
fs_stream_status_from_osal_file_status OsalFileStatus.ok = FsStreamStatus.ok
fs_stream_status_from_osal_file_status OsalFileStatus.eof = FsStreamStatus.eof
fs_stream_status_from_osal_file_status OsalFileStatus.invalid = FsStreamStatus.invalid
fs_stream_status_from_osal_file_status OsalFileStatus.noent = FsStreamStatus.not_found
fs_stream_status_from_osal_file_status OsalFileStatus.oom = FsStreamStatus.oom
fs_stream_status_from_osal_file_status _ = FsStreamStatus.io_error

-- fs_stream_cr.c: `fs_stream_status_to_stream_status`, in the backend constructor.
unfoldable pub fs_stream_status_to_stream_status : FsStreamStatus → StreamStatus
fs_stream_status_to_stream_status FsStreamStatus.ok = StreamStatus.ok
fs_stream_status_to_stream_status FsStreamStatus.oom = StreamStatus.oom
fs_stream_status_to_stream_status FsStreamStatus.invalid = StreamStatus.invalid
fs_stream_status_to_stream_status _ = StreamStatus.io_error

-- stdio_stream_cr.c: `stdio_stream_status_to_stream_status`.
unfoldable pub stdio_stream_status_to_stream_status : StdioStreamStatus → StreamStatus
stdio_stream_status_to_stream_status StdioStreamStatus.ok = StreamStatus.ok
stdio_stream_status_to_stream_status StdioStreamStatus.oom = StreamStatus.oom

-- stream_owner.c: `stream_status_to_stream_factory_status`.
unfoldable pub stream_status_to_stream_factory_status : StreamStatus → StreamFactoryStatus
stream_status_to_stream_factory_status StreamStatus.ok = StreamFactoryStatus.ok
stream_status_to_stream_factory_status StreamStatus.eof = StreamFactoryStatus.eof
stream_status_to_stream_factory_status StreamStatus.invalid = StreamFactoryStatus.invalid
stream_status_to_stream_factory_status StreamStatus.not_found = StreamFactoryStatus.not_found
stream_status_to_stream_factory_status StreamStatus.no_backend = StreamFactoryStatus.no_backend
stream_status_to_stream_factory_status StreamStatus.io_error = StreamFactoryStatus.io_error
stream_status_to_stream_factory_status StreamStatus.oom = StreamFactoryStatus.oom
