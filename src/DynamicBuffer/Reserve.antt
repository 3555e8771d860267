-- ===== src/DynamicBuffer/Reserve.antt =====
-- dynamic_buffer_stream_buffer_reserve (dynamic_buffer_stream_cr.c): what it keeps, and what it does
-- to the heap.
use lex_leo.Prelude.{
  ℕ, zero, suc, ◌+◌, ◌≤◌, ◌<◌, ◌≡◌, refl, ap, ◌∙◌, inl, inr, some, [], ◌∷◌, ◌++◌, arith, leb,
  Bool-cases, length, take, length-append, length-take, take-append_le, take-take,
}
use lex_leo.Status.{StreamStatus}
use lex_leo.Memory.{World, block, unit, indeterminate, granted, released}
use lex_leo.Memory.Balance.{
  Returns, returns, Delta, Holds, count, unit-le, unit_self, realloc-granted, realloc-refused,
}
use lex_leo.DynamicBuffer.{size_max, DynamicBufferStream, dynamic_buffer_stream_buffer_reserve}
use lex_leo.DynamicBuffer.Contents.{stored, IsValid, own_dbs, buf-eq_some}

length-indeterminate : (junk : ℕ → ℕ) (n : ℕ) → length (indeterminate junk n) ≡ n
unfolding indeterminate
length-indeterminate junk zero = refl
length-indeterminate junk (suc n) = ap suc (length-indeterminate junk n)

-- The handle after a successful reservation: the same bytes, and room for `c`.
pub record Reserved (s : DynamicBufferStream) (c : ℕ) (s' : DynamicBufferStream) : Type 0 where
  pub valid : IsValid s'.dbuf
  pub kept : stored s'.dbuf ≡ stored s.dbuf
  pub len : s'.dbuf.len ≡ s.dbuf.len
  pub read_pos : s'.dbuf.read_pos ≡ s.dbuf.read_pos
  pub room : c ≤ s'.dbuf.cap

-- A reservation succeeds with room, or reports OOM, only past the capacity, and changes nothing.
pub data ReserveOutcome (s : DynamicBufferStream) (c : ℕ)
    : StreamStatus → DynamicBufferStream → Type 0 where
  reserved : {s' : DynamicBufferStream} → Reserved s c s' → ReserveOutcome s c StreamStatus.ok s'
  denied : s.dbuf.cap < c → ReserveOutcome s c StreamStatus.oom s

-- The handle owns what it owned, with the storage exchanged if it moved.
abbrev pub ReservePost :
    DynamicBufferStream → ℕ → World → StreamStatus × DynamicBufferStream → World → Type 0
ReservePost s c w (st, s') w' = ReserveOutcome s c st s' × Delta (own_dbs s') (own_dbs s) w w'

-- The handle after a successful `realloc`.
moved : DynamicBufferStream → ℕ → ℕ → World → DynamicBufferStream
moved s p c w = record s {
  dbuf = record s.dbuf {
    buf = some w.next;
    bytes = take c (s.dbuf.bytes ++ indeterminate w.junk c);
    cap = c;
  };
}

moved-Reserved :
    (s : DynamicBufferStream) (p c : ℕ) (w : World)
    → IsValid s.dbuf
    → s.dbuf.cap < c
    → c ≤ size_max
    → Reserved s c (moved s p c w)
unfolding moved
moved-Reserved s p c w v more bounded =
    let d = s.dbuf in
    let fresh = indeterminate w.junk c in
    record {
      valid = record {
        has_buf = refl;
        pos = omega arith;
        bounded = bounded;
        size = omega (
          arith,
          length-take c (d.bytes ++ fresh),
          length-append d.bytes fresh,
          length-indeterminate w.junk c,
        );
        order = v.order;
        fits = omega (arith, v.fits);
      };
      kept =
          take-take d.len c (d.bytes ++ fresh) (omega (arith, v.fits))
          ∙ take-append_le d.len d.bytes fresh (omega (arith, v.fits, v.size));
      len = refl;
      read_pos = refl;
      room = omega arith;
    }

-- The storage of a handle that owns its blocks is live.
buf-live :
    (s : DynamicBufferStream) (p : ℕ) (w : World)
    → s.dbuf.buf ≡ some p
    → Holds (own_dbs s) w
    → 0 < w.live (block p)
buf-live s p w e own =
    let h : unit (block s.addr) (block p) + count (block p) (block p ∷ []) ≤ w.live (block p) =
      rw e at (own (block p)) in
    omega (arith, unit_self (block p))

moved-Delta :
    (s : DynamicBufferStream) (p c : ℕ) (w : World)
    → s.dbuf.buf ≡ some p
    → 0 < w.live (block p)
    → Delta (own_dbs (moved s p c w)) (own_dbs s) w (granted (block w.next) (released (block p) w))
unfolding moved
moved-Delta s p c w e alive r = rw e (omega (arith, unit-le w (block p) r alive))

-- On a well-formed handle that owns its blocks, and for a capacity within `size_t`, a reservation
-- never aborts. It reports OK with a well-formed handle of the same bytes, length and cursor and at
-- least that capacity, or OOM, only if the capacity exceeds the old one, with the handle unchanged.
-- The heap changes only by the exchange of the old storage for the new.
pub dynamic_buffer_stream_buffer_reserve_lem :
    (s : DynamicBufferStream) (c : ℕ) (w : World)
    → IsValid s.dbuf
    → c ≤ size_max
    → Holds (own_dbs s) w
    → Returns (ReservePost s c w) (dynamic_buffer_stream_buffer_reserve s c w)
unfolding dynamic_buffer_stream_buffer_reserve moved
dynamic_buffer_stream_buffer_reserve_lem s c w v bounded own =
    elim (Bool-cases (leb c s.dbuf.cap)) [
      | inl roomy ↦ rw roomy (
          returns (
            reserved (record {
              valid = v;
              kept = refl;
              len = refl;
              read_pos = refl;
              room = ground arith;
            }),
            λ r. refl,
          ))
      | inr tight ↦
          let (p, e) = buf-eq_some s.dbuf v in
          let alive = buf-live s p w e own in
          let more : s.dbuf.cap < c = ground arith in
          elim (Bool-cases (w.grants w.next)) [
            | inl g ↦
                rw (tight, realloc-granted s.dbuf.buf p s.dbuf.bytes c w e alive g)
                  (returns
                    (reserved (moved-Reserved s p c w v more bounded), moved-Delta s p c w e alive))
            | inr g ↦
                rw (tight, realloc-refused s.dbuf.buf p s.dbuf.bytes c w e alive g)
                  (returns (denied more, λ r. refl))
          ]
    ]
