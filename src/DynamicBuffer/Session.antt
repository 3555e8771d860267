-- ===== src/DynamicBuffer/Session.antt =====
-- A client that reads and writes one dynamic buffer in any order (dynamic_buffer_stream_cr.c).
use lex_leo.Prelude.{
  ℕ, ◌≡◌, refl, sym, ap, ◌∙◌, true, some, none, List, [], ◌∷◌, ◌++◌, append_assoc, append-nil,
  arith, length, take, drop, take-append-drop, Option,
}
use mathlib.Core.Path.{subst}
use lex_leo.Status.{StreamStatus}
use lex_leo.Memory.{Resource, World, M, pure, fail, ◌>>=◌}
use lex_leo.Memory.Balance.{Returns, returns, bind, Delta, Holds, count}
use lex_leo.DynamicBuffer.{
  DynamicBufferStream, dynamic_buffer_stream_read, dynamic_buffer_stream_write,
}
use lex_leo.DynamicBuffer.Contents.{unread, IsValid, own_dbs, dynamic_buffer_stream_read_lem}
use lex_leo.DynamicBuffer.Write.{
  WriteOutcome, all_written, too_long, no_memory, WritePost, dynamic_buffer_stream_write_lem,
}

pub data Request : Type 0 where
  read : ℕ → Request
  write : List ℕ → Request

-- The bytes delivered by all reads, those accepted by all writes, and the handle at the end.
unfoldable pub session :
    List Request → DynamicBufferStream → M (List ℕ × List ℕ × DynamicBufferStream)
session [] s = pure ([], [], s)
session (read n ∷ rs) s = do
  (bytes, st, o) ← dynamic_buffer_stream_read (some s) true n
  elim o [
    | none ↦ fail
    | some s' ↦ do (out, accepted, t) ← session rs s'; pure (bytes ++ out, accepted, t)
  ]
session (write src ∷ rs) s = do
  (k, st, o) ← dynamic_buffer_stream_write (some s) (some src) (length src)
  elim o [
    | none ↦ fail
    | some s' ↦ do (out, accepted, t) ← session rs s'; pure (out, take k src ++ accepted, t)
  ]

pub record Fifo (s : DynamicBufferStream) (w : World) (r : List ℕ × List ℕ × DynamicBufferStream)
    (w' : World) : Type 0 where
  pub queue : r.0 ++ unread r.2.dbuf ≡ unread s.dbuf ++ r.1
  pub valid : IsValid r.2.dbuf
  pub owns : Delta (own_dbs r.2) (own_dbs s) w w'

pub Holds-Delta :
    (before after : List Resource) (w w' : World)
    → Holds before w
    → Delta after before w w'
    → Holds after w'
Holds-Delta before after w w' h d r = omega (arith, h r, d r)

pub accept :
    {s s' : DynamicBufferStream} {src : List ℕ} {k : ℕ} {st : StreamStatus}
    → IsValid s.dbuf
    → WriteOutcome s src (length src) k st s'
    → IsValid s'.dbuf × (unread s'.dbuf ≡ unread s.dbuf ++ take k src)
accept v (all_written w) = (w.valid, w.pending)
accept v (too_long h) = (v, sym (append-nil _))
accept v (no_memory h) = (v, sym (append-nil _))

session-Fifo-write :
    (s : DynamicBufferStream) (src : List ℕ) (rs : List Request) (w : World)
    → IsValid s.dbuf
    → Holds (own_dbs s) w
    → ((t : DynamicBufferStream) (w' : World)
        → IsValid t.dbuf
        → Holds (own_dbs t) w'
        → Returns (Fifo t w') (session rs t w'))
    → Returns (Fifo s w) (session (write src ∷ rs) s w)
unfolding session
session-Fifo-write s src rs w v own rest =
    bind (dynamic_buffer_stream_write_lem s src (length src) w v (omega arith) own)
      λ (k, st, o) w' post. go k st o w' post
  where
    go :
        (k : ℕ) (st : StreamStatus) (o : Option DynamicBufferStream) (w' : World)
        (post : WritePost s src (length src) w (k, st, o) w')
        → Returns (Fifo s w) (
            (elim o as (λ _. M (List ℕ × List ℕ × DynamicBufferStream)) [
              | none ↦ fail
              | some s' ↦ do
                (out, accepted, t) ← session rs s'
                pure (out, take k src ++ accepted, t)
            ])
              w')
    go k st none w' post = absurd post
    go k st (some s') w' (outcome, delta) =
        let (v', e) = accept v outcome in
        bind (rest s' w' v' (Holds-Delta (own_dbs s) (own_dbs s') w w' own delta))
          λ (out, accepted, t) w'' f. returns (record {
            queue =
                f.queue
                ∙ ap (λ l. l ++ accepted) e
                ∙ append_assoc (unread s.dbuf) (take k src) accepted;
            valid = f.valid;
            owns = λ r. omega (arith, delta r, f.owns r);
          })

-- For any requests in any order on a well-formed buffer that owns its blocks, and whatever the
-- allocator answers, the session never aborts, and
-- the bytes delivered followed by those still unread are the bytes that were unread at the start
-- followed by those accepted: nothing is lost, repeated or reordered. The buffer stays well formed,
-- and the heap changes only by the exchange of its own blocks.
pub session-Fifo :
    (rs : List Request) (s : DynamicBufferStream) (w : World)
    → IsValid s.dbuf
    → Holds (own_dbs s) w
    → Returns (Fifo s w) (session rs s w)
unfolding session
session-Fifo [] s w v own =
    returns (record { queue = sym (append-nil _); valid = v; owns = λ r. refl })
session-Fifo (read n ∷ rs) s w v own =
    let (s', run, f) = dynamic_buffer_stream_read_lem s n w v in
    rw run (
      bind (session-Fifo rs s' w f.valid (subst (λ o. Holds o w) (sym f.owner) own))
        λ (out, accepted, t) w' g. returns (record {
          queue =
              append_assoc (take n (unread s.dbuf)) out (unread t.dbuf)
              ∙ ap (λ l. take n (unread s.dbuf) ++ l) (g.queue ∙ ap (λ l. l ++ accepted) f.rest)
              ∙ sym (append_assoc (take n (unread s.dbuf)) (drop n (unread s.dbuf)) accepted)
              ∙ ap (λ l. l ++ accepted) (take-append-drop n (unread s.dbuf));
          valid = g.valid;
          owns = λ r. omega (arith, g.owns r, ap (count r) f.owner);
        }))
session-Fifo (write src ∷ rs) s w v own =
    session-Fifo-write s src rs w v own (λ t w' v' own'. session-Fifo rs t w' v' own')
