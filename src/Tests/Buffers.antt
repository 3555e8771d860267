-- ===== src/Tests/Buffers.antt =====
-- The dynamic buffer and the handles of the adapters on concrete inputs.
use lex_leo.Prelude.{ℕ, ◌≡◌, refl, true, some, List, [], ◌∷◌, arith, codes}
use lex_leo.Status.{StreamStatus}
use lex_leo.Memory.{World, Run, done, abort, realloc}
use lex_leo.Memory.Balance.{Returns}
use lex_leo.DynamicBuffer.{
  DynamicBufferStream, well_formed, dynamic_buffer_stream_next_cap, grow_cap, grow_fuel,
  dynamic_buffer_stream_read, dynamic_buffer_stream_buffer_reserve, dynamic_buffer_stream_write,
}
use lex_leo.DynamicBuffer.Growth.{Fits, grow_cap-total}
use lex_leo.DynamicBuffer.Contents.{IsValid, own_dbs, ReadFrom, dynamic_buffer_stream_read_lem}
use lex_leo.DynamicBuffer.Write.{WritePost, dynamic_buffer_stream_write_lem}
use lex_leo.DynamicBuffer.Session.{Request, read, write, session, Fifo, session-Fifo}
use lex_leo.FsStream.{supported_mode}
use lex_leo.Tests.{world_of, two_bytes}

two_bytes-IsValid : IsValid two_bytes.dbuf
two_bytes-IsValid = record {
  has_buf = refl;
  pos = omega arith;
  bounded = omega arith;
  size = refl;
  order = omega arith;
  fits = omega arith;
}

abbrev buffer_world : World
buffer_world = world_of (own_dbs two_bytes)

-- Reads across the end of the bytes, and a write that grows the storage.
abbrev requests : List Request
requests = read 1 ∷ read 3 ∷ write (1 ∷ 2 ∷ 3 ∷ []) ∷ read 2 ∷ write (4 ∷ []) ∷ []

delivered : Run (List ℕ × List ℕ × DynamicBufferStream) → List ℕ × List ℕ
delivered (done (out, accepted, s) w) = (out, accepted)
delivered abort = ([], [])

session_run :
    delivered (session requests two_bytes buffer_world) ≡ (8 ∷ 1 ∷ 2 ∷ [], 1 ∷ 2 ∷ 3 ∷ 4 ∷ [])
unfolding delivered session dynamic_buffer_stream_read dynamic_buffer_stream_write well_formed
    grow_cap dynamic_buffer_stream_next_cap dynamic_buffer_stream_buffer_reserve realloc
session_run = refl

session-Fifo_example :
    Returns (Fifo two_bytes buffer_world) (session requests two_bytes buffer_world)
session-Fifo_example =
    session-Fifo requests two_bytes buffer_world two_bytes-IsValid (λ r. omega arith)

dynamic_buffer_stream_read_lem_example :
    (s' : DynamicBufferStream) × (dynamic_buffer_stream_read (some two_bytes) true 3 buffer_world
      ≡ done (8 ∷ [], StreamStatus.ok, some s') buffer_world)
    × ReadFrom two_bytes 3 s'
dynamic_buffer_stream_read_lem_example =
    dynamic_buffer_stream_read_lem two_bytes 3 buffer_world two_bytes-IsValid

dynamic_buffer_stream_write_lem_example :
    Returns
      (WritePost two_bytes (1 ∷ 2 ∷ 3 ∷ []) 3 buffer_world)
      (dynamic_buffer_stream_write (some two_bytes) (some (1 ∷ 2 ∷ 3 ∷ [])) 3 buffer_world)
dynamic_buffer_stream_write_lem_example =
    dynamic_buffer_stream_write_lem two_bytes (1 ∷ 2 ∷ 3 ∷ []) 3 buffer_world two_bytes-IsValid
      (omega arith) (λ r. omega arith)

grow_cap-total_example : (c : ℕ) × (grow_cap grow_fuel 1000 256 ≡ some c) × Fits 1000 256 c
grow_cap-total_example = grow_cap-total 1000 256 (omega arith) (omega arith) (omega arith)

reading : supported_mode (codes "rb") ≡ true
unfolding supported_mode
reading = refl
