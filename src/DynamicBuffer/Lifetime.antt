-- ===== src/DynamicBuffer/Lifetime.antt =====
-- Construction and release of dynamic-buffer handles (dynamic_buffer_stream_cr.c).
pub mod Ownership
use lex_leo.Prelude.{ℕ, ◌≡◌, Bool, Option, none, some, List, [], ◌∷◌, ltb, if◌then◌else◌, replicate}
use lex_leo.Status.{StreamStatus, DynamicBufferStreamStatus}
use lex_leo.Memory.{M, pure, ◌>>=◌, ◌>>◌, assert, calloc, free}
use lex_leo.DynamicBuffer.{DynamicBuffer, DynamicBufferStream}

-- `default_cap` of `dynamic_buffer_stream_cfg_t`.
unfoldable pub dynamic_buffer_stream_default_cfg : ℕ
dynamic_buffer_stream_default_cfg = 256

free_storage : Option ℕ → M (Unit {0})
free_storage none = pure tt
free_storage (some p) = free p

unfoldable pub dynamic_buffer_stream_close : Option DynamicBufferStream → M StreamStatus
unfolding free_storage
dynamic_buffer_stream_close none = pure StreamStatus.ok
dynamic_buffer_stream_close (some s) = do free_storage s.dbuf.buf; free s.addr; pure StreamStatus.ok

-- `calloc` leaves every field zero.
abbrev pub zero_buffer : DynamicBuffer
zero_buffer = record { buf = none; bytes = []; cap = 0; len = 0; read_pos = 0 }

-- What follows the allocation of the handle.
new_handle : Option ℕ → M (DynamicBufferStreamStatus × Option DynamicBufferStream)
new_handle none = pure (DynamicBufferStreamStatus.oom, none)
new_handle (some p) =
    pure (DynamicBufferStreamStatus.ok, some (record { addr = p; dbuf = zero_buffer }))

unfoldable pub dynamic_buffer_stream_create :
    M (DynamicBufferStreamStatus × Option DynamicBufferStream)
unfolding new_handle
dynamic_buffer_stream_create = calloc >>= new_handle

-- What follows the allocation of the storage, which `calloc` fills with zeros.
new_storage :
    DynamicBufferStream → ℕ → Option ℕ → M (DynamicBufferStreamStatus × DynamicBufferStream)
new_storage s default_cap none = pure (DynamicBufferStreamStatus.oom, s)
new_storage s default_cap (some p) = pure (
  DynamicBufferStreamStatus.ok,
  record s {
    dbuf = record {
      buf = some p;
      bytes = replicate default_cap 0;
      cap = default_cap;
      len = 0;
      read_pos = 0;
    };
  },
)

init_unless :
    Option ℕ → DynamicBufferStream → ℕ → M (DynamicBufferStreamStatus × DynamicBufferStream)
unfolding new_storage
init_unless (some p) s default_cap = pure (DynamicBufferStreamStatus.ok, s)
init_unless none s default_cap = calloc >>= new_storage s default_cap

unfoldable pub dynamic_buffer_stream_complete_default_init :
    DynamicBufferStream → (default_cap : ℕ) → M (DynamicBufferStreamStatus × DynamicBufferStream)
unfolding init_unless
dynamic_buffer_stream_complete_default_init s default_cap = do
  assert (ltb 0 default_cap)
  init_unless s.dbuf.buf s default_cap

-- What follows the initialisation.
finish_create_init :
    DynamicBufferStreamStatus × DynamicBufferStream
    → M (DynamicBufferStreamStatus × Option DynamicBufferStream)
finish_create_init (DynamicBufferStreamStatus.ok, s) = pure (DynamicBufferStreamStatus.ok, some s)
finish_create_init (st, s) = do dynamic_buffer_stream_close (some s); pure (st, none)

init_created :
    ℕ
    → DynamicBufferStreamStatus × Option DynamicBufferStream
    → M (DynamicBufferStreamStatus × Option DynamicBufferStream)
unfolding finish_create_init
init_created default_cap (st, none) = pure (st, none)
init_created default_cap (st, some s) =
    dynamic_buffer_stream_complete_default_init s default_cap >>= finish_create_init

unfoldable pub dynamic_buffer_stream_create_init :
    (default_cap : ℕ) → M (DynamicBufferStreamStatus × Option DynamicBufferStream)
unfolding init_created
dynamic_buffer_stream_create_init default_cap =
    dynamic_buffer_stream_create >>= init_created default_cap

unfoldable pub dynamic_buffer_stream_status_to_stream_status :
    DynamicBufferStreamStatus → StreamStatus
dynamic_buffer_stream_status_to_stream_status DynamicBufferStreamStatus.ok = StreamStatus.ok
dynamic_buffer_stream_status_to_stream_status DynamicBufferStreamStatus.oom = StreamStatus.oom

finish_ctor :
    DynamicBufferStreamStatus × DynamicBufferStream → M (StreamStatus × Option DynamicBufferStream)
unfolding dynamic_buffer_stream_status_to_stream_status
finish_ctor (DynamicBufferStreamStatus.ok, s) = pure (StreamStatus.ok, some s)
finish_ctor (st, s) = do
  dynamic_buffer_stream_close (some s)
  pure (dynamic_buffer_stream_status_to_stream_status st, none)

ctor_created :
    ℕ
    → DynamicBufferStreamStatus × Option DynamicBufferStream
    → M (StreamStatus × Option DynamicBufferStream)
unfolding finish_ctor
ctor_created default_cap (st, none) = pure (dynamic_buffer_stream_status_to_stream_status st, none)
ctor_created default_cap (st, some s) =
    dynamic_buffer_stream_complete_default_init s default_cap >>= finish_ctor

unfoldable pub dynamic_buffer_stream_ctor :
    (default_cap : ℕ) → M (StreamStatus × Option DynamicBufferStream)
unfolding ctor_created
dynamic_buffer_stream_ctor default_cap = dynamic_buffer_stream_create >>= ctor_created default_cap
