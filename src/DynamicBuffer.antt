-- ===== src/DynamicBuffer.antt =====
-- The dynamic-buffer backend: the operations of dynamic_buffer_stream_cr.c on a growing byte
-- buffer (src/foundation/stream_new/adapters/dynamic_buffer_stream). The status that C writes
-- through `st` is returned; `st == NULL` drops it.
pub mod Growth
pub mod Contents
pub mod Reserve
pub mod Write
pub mod Session
pub mod Lifetime
use lex_leo.Prelude.{
  ℕ, zero, suc, ◌+◌, ◌-◌, ◌*◌, ◌/◌, ◌^◌, Bool, true, false, ◌&&◌, Option, none, some, List, [], ◌∷◌,
  ◌++◌, ltb, leb, ◌==◌, if◌then◌else◌, is_some, take, drop,
}
use lex_leo.Status.{StreamStatus}
use lex_leo.Memory.{Resource, block, M, pure, fail, ◌>>=◌, ◌>>◌, assert, realloc}

abbrev pub size_max : ℕ
size_max = 2 ^ 64 - 1

-- `buf` is the address of the storage, and `bytes` what it holds.
pub record DynamicBuffer : Type 0 where
  pub buf : Option ℕ
  pub bytes : List ℕ
  pub cap : ℕ
  pub len : ℕ
  pub read_pos : ℕ

-- The handle, at `addr`.
pub record DynamicBufferStream : Type 0 where
  pub addr : ℕ
  pub dbuf : DynamicBuffer

-- The assertion at the head of read and write.
unfoldable pub well_formed : DynamicBuffer → Bool
well_formed d = is_some d.buf && (ltb 0 d.cap && (leb d.read_pos d.len && leb d.len d.cap))

read_some : DynamicBufferStream → ℕ → M (List ℕ × StreamStatus × Option DynamicBufferStream)
read_some s n =
    let d = s.dbuf in
    let avail = d.len - d.read_pos in
    let ret = if ltb avail n then avail else n in
    if leb d.len d.read_pos
    then pure ([], StreamStatus.eof, some s)
    else pure (
      take ret (drop d.read_pos d.bytes),
      StreamStatus.ok,
      some (record s { dbuf = record d { read_pos = d.read_pos + ret } }),
    )

read_backend : DynamicBufferStream → ℕ → M (List ℕ × StreamStatus × Option DynamicBufferStream)
unfolding read_some
read_backend s n = do
  assert (well_formed s.dbuf)
  if n == 0 then pure ([], StreamStatus.ok, some s) else read_some s n

-- `to` says whether the destination is not `NULL`. The bytes copied to it are the first component;
-- their number is what C returns.
unfoldable pub dynamic_buffer_stream_read :
    Option DynamicBufferStream
    → (to : Bool) → ℕ
    → M (List ℕ × StreamStatus × Option DynamicBufferStream)
unfolding read_backend
dynamic_buffer_stream_read none to n = pure ([], StreamStatus.invalid, none)
dynamic_buffer_stream_read (some s) true n = read_backend s n
dynamic_buffer_stream_read (some s) false n =
    if ltb 0 n then pure ([], StreamStatus.invalid, some s) else read_backend s n

unfoldable pub dynamic_buffer_stream_buffer_reserve :
    DynamicBufferStream → ℕ → M (StreamStatus × DynamicBufferStream)
dynamic_buffer_stream_buffer_reserve s cap =
    if leb cap s.dbuf.cap then pure (StreamStatus.ok, s) else do
      new_buf ← realloc s.dbuf.buf s.dbuf.bytes cap
      elim new_buf [
        | none ↦ pure (StreamStatus.oom, s)
        | some (p, bytes) ↦ pure (
          StreamStatus.ok,
          record s { dbuf = record s.dbuf { buf = some p; bytes = bytes; cap = cap } },
        )
      ]

unfoldable pub dynamic_buffer_stream_next_cap : ℕ → ℕ
dynamic_buffer_stream_next_cap cap = if ltb (size_max / 2) cap then 0 else 2 * cap

-- The `while (need > new_cap)` loop of write, on fuel.
unfoldable pub grow_cap : ℕ → ℕ → ℕ → Option ℕ
grow_cap zero need new_cap = none
grow_cap (suc f) need new_cap =
    let grown = dynamic_buffer_stream_next_cap new_cap in
    let rest = grow_cap f need grown in
    if ltb new_cap need then (if grown == 0 then some need else rest) else some new_cap

-- 65 rounds: 64 doublings pass every `size_t`.
abbrev pub grow_fuel : ℕ
grow_fuel = 65

-- `osal_memcpy(buf + at, src, n)`
unfoldable pub copy_at : List ℕ → ℕ → List ℕ → ℕ → List ℕ
copy_at bytes at src n = take at bytes ++ (take n src ++ drop (at + n) bytes)

-- What follows the reservation.
append_bytes :
    List ℕ
    → ℕ
    → StreamStatus × DynamicBufferStream
    → M (ℕ × StreamStatus × Option DynamicBufferStream)
unfolding copy_at
append_bytes src n (StreamStatus.ok, s) =
    let d = s.dbuf in
    pure (
      n,
      StreamStatus.ok,
      some (record s { dbuf = record d { bytes = copy_at d.bytes d.len src n; len = d.len + n } }),
    )
append_bytes src n (st, s) = pure (0, st, some s)

write_some : DynamicBufferStream → List ℕ → ℕ → M (ℕ × StreamStatus × Option DynamicBufferStream)
unfolding append_bytes
write_some s src n =
    if ltb (size_max - s.dbuf.len) n
    then pure (0, StreamStatus.invalid, some s)
    else elim (grow_cap grow_fuel (s.dbuf.len + n) s.dbuf.cap) [
      | none ↦ fail
      | some new_cap ↦ dynamic_buffer_stream_buffer_reserve s new_cap >>= append_bytes src n
    ]

write_backend : DynamicBufferStream → List ℕ → ℕ → M (ℕ × StreamStatus × Option DynamicBufferStream)
unfolding write_some
write_backend s src n = do
  assert (well_formed s.dbuf)
  if n == 0 then pure (0, StreamStatus.ok, some s) else write_some s src n

-- `src` is what the source pointer points at.
unfoldable pub dynamic_buffer_stream_write :
    Option DynamicBufferStream
    → Option (List ℕ)
    → ℕ
    → M (ℕ × StreamStatus × Option DynamicBufferStream)
unfolding write_backend
dynamic_buffer_stream_write none src n = pure (0, StreamStatus.invalid, none)
dynamic_buffer_stream_write (some s) (some src) n = write_backend s src n
dynamic_buffer_stream_write (some s) none n =
    if ltb 0 n then pure (0, StreamStatus.invalid, some s) else write_backend s [] n

unfoldable pub dynamic_buffer_stream_flush : Option DynamicBufferStream → M StreamStatus
dynamic_buffer_stream_flush s = pure StreamStatus.ok
