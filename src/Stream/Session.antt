-- ===== src/Stream/Session.antt =====
-- A client that reads and writes a stream over a dynamic buffer in any order (stream_read and
-- stream_write of stream_borrower.c).
use lex_leo.Prelude.{
  ℕ, zero, suc, ◌≡◌, refl, sym, true, some, none, List, [], ◌∷◌, ◌++◌, arith, length, take, Option,
  suc-==-zero,
}
use mathlib.Core.Path.{subst}
use lex_leo.Status.{StreamStatus}
use lex_leo.Memory.{World, Run, done, abort, M, pure, fail, ◌>>=◌, and_then}
use lex_leo.Memory.Balance.{Returns, returns, Holds}
use lex_leo.DynamicBuffer.{
  DynamicBufferStream, dynamic_buffer_stream_read, dynamic_buffer_stream_write,
}
use lex_leo.DynamicBuffer.Contents.{
  IsValid, own_dbs, unread, read_zero, dynamic_buffer_stream_read_lem,
}
use lex_leo.DynamicBuffer.Write.{WritePost, write_zero, dynamic_buffer_stream_write_lem}
use lex_leo.DynamicBuffer.Session.{Request, read, write, session, Holds-Delta, accept}
use lex_leo.FsStream.{FileOps}
use lex_leo.StdioStream.{StdioOps}
use lex_leo.Stream.{
  Stream, with_dynamic_buffer, read_backend, read_from, stream_read, write_backend, write_to,
  stream_write,
}
use lex_leo.Stream.Dispatch.{over}

module _ (file_ops : FileOps) (stdio_ops : StdioOps) where
  -- The bytes delivered by all reads, those accepted by all writes, and the stream at the end.
  unfoldable pub stream_session : List Request → Stream → M (List ℕ × List ℕ × Stream)
  stream_session [] s = pure ([], [], s)
  stream_session (read n ∷ rs) s = do
    (bytes, st, o) ← stream_read file_ops stdio_ops (some s) true n
    elim o [
      | none ↦ fail
      | some s' ↦ do (out, accepted, t) ← stream_session rs s'; pure (bytes ++ out, accepted, t)
    ]
  stream_session (write src ∷ rs) s = do
    (k, st, o) ← stream_write file_ops stdio_ops (some s) (some src) (length src)
    elim o [
      | none ↦ fail
      | some s' ↦ do
        (out, accepted, t) ← stream_session rs s'
        pure (out, take k src ++ accepted, t)
    ]

  module _ (a : ℕ) where
    -- The result of a session with the buffer, with the stream over that buffer.
    abbrev pub as_stream : List ℕ × List ℕ × DynamicBufferStream → M (List ℕ × List ℕ × Stream)
    as_stream (out, accepted, t) = pure (out, accepted, over a t)

    read_through :
        (b : DynamicBufferStream) (n : ℕ) (w : World)
        → IsValid b.dbuf
        → stream_read file_ops stdio_ops (some (over a b)) true n w
          ≡ and_then
              (dynamic_buffer_stream_read (some b) true n w)
              (with_dynamic_buffer file_ops stdio_ops (over a b))
    unfolding stream_read read_from read_backend with_dynamic_buffer
    read_through b zero w v = rw (read_zero b w v)
    read_through b (suc n) w v = rw (suc-==-zero n)

    write_through :
        (b : DynamicBufferStream) (src : List ℕ) (n : ℕ) (w : World)
        → IsValid b.dbuf
        → stream_write file_ops stdio_ops (some (over a b)) (some src) n w
          ≡ and_then
              (dynamic_buffer_stream_write (some b) (some src) n w)
              (with_dynamic_buffer file_ops stdio_ops (over a b))
    unfolding stream_write write_to write_backend with_dynamic_buffer
    write_through b src zero w v = rw (write_zero b src w v)
    write_through b src (suc n) w v = rw (suc-==-zero n)

    -- A session that ends as the buffer's does still does so with more bytes in front.
    longer :
        (f g : List ℕ → List ℕ) (m : Run (List ℕ × List ℕ × Stream))
        (k : Run (List ℕ × List ℕ × DynamicBufferStream))
        → m ≡ and_then k as_stream
        → and_then m (λ (out, accepted, t). pure (f out, g accepted, t))
          ≡ and_then (and_then k (λ (out, accepted, t). pure (f out, g accepted, t))) as_stream
    longer f g m (done r w) e = rw e
    longer f g m abort e = rw e

    module _ (b : DynamicBufferStream) (src : List ℕ) (rs : List Request) (w : World)
        (v : IsValid b.dbuf) (own : Holds (own_dbs b) w)
        (rest : (c : DynamicBufferStream) (w' : World)
          → IsValid c.dbuf
          → Holds (own_dbs c) w'
          → stream_session rs (over a c) w' ≡ and_then (session rs c w') as_stream) where
      write_first :
          (m : Run (ℕ × StreamStatus × Option DynamicBufferStream))
          → Returns (WritePost b src (length src) w) m
          → and_then (and_then m (with_dynamic_buffer file_ops stdio_ops (over a b))) (λ (k, st, o).
            elim o as (λ _. M (List ℕ × List ℕ × Stream)) [
              | none ↦ fail
              | some s' ↦ do
                (out, accepted, t) ← stream_session rs s'
                pure (out, take k src ++ accepted, t)
            ])
            ≡ and_then
                (and_then m (λ (k, st, o).
                  elim o as (λ _. M (List ℕ × List ℕ × DynamicBufferStream)) [
                    | none ↦ fail
                    | some s' ↦ do
                      (out, accepted, t) ← session rs s'
                      pure (out, take k src ++ accepted, t)
                  ]))
                as_stream
      unfolding with_dynamic_buffer
      write_first m (returns {a = (k, st, none)} p) = absurd p
      write_first m (returns {a = (k, st, some c)} {w = w'} (outcome, delta)) =
          longer (λ out. out) (λ accepted. take k src ++ accepted) _ (session rs c w')
            (rest c w' (accept v outcome).0 (Holds-Delta (own_dbs b) (own_dbs c) w w' own delta))

    -- A client of the stream sees what a client of the buffer sees: for any requests in any order
    -- on a stream over a well-formed dynamic buffer that owns its blocks, and whatever the allocator
    -- answers, the session through the port is the session with the buffer, with the same bytes
    -- delivered and accepted, in the same world, and with the stream at its place over the buffer
    -- that the other leaves.
    pub stream_session-session :
        (rs : List Request) (b : DynamicBufferStream) (w : World)
        → IsValid b.dbuf
        → Holds (own_dbs b) w
        → stream_session rs (over a b) w ≡ and_then (session rs b w) as_stream
    unfolding stream_session session with_dynamic_buffer
    stream_session-session [] b w v own = refl
    stream_session-session (read n ∷ rs) b w v own =
        let (b', run, f) = dynamic_buffer_stream_read_lem b n w v in
        rw (read_through b n w v, run)
          (longer (λ out. take n (unread b.dbuf) ++ out) (λ accepted. accepted) _ (session rs b' w)
            (stream_session-session rs b' w f.valid (subst (λ o. Holds o w) (sym f.owner) own)))
    stream_session-session (write src ∷ rs) b w v own = rw (write_through b src (length src) w v) (
        write_first b src rs w v own (λ c w' v' own'. stream_session-session rs c w' v' own')
          (dynamic_buffer_stream_write (some b) (some src) (length src) w)
          (dynamic_buffer_stream_write_lem b src (length src) w v (omega arith) own))
