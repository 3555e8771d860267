-- ===== src/DynamicBuffer/Write.antt =====
-- dynamic_buffer_stream_write (dynamic_buffer_stream_cr.c): what it appends, and what it does to
-- the heap, on every branch.
use lex_leo.Prelude.{
  ℕ, zero, suc, ◌+◌, ◌-◌, ◌≤◌, ◌<◌, ◌≡◌, refl, sym, ap, ◌∙◌, inl, inr, some, none, List, ◌++◌,
  append_assoc, append-nil, arith, ltb, Bool-cases, length, take, drop, length-append, length-take,
  length-drop, take-all, take-append_le, drop-append_le, ltb→lt, ltb→ge, Option, suc-==-zero,
}
use lex_leo.Status.{StreamStatus}
use lex_leo.Memory.{World, done}
use lex_leo.Memory.Balance.{Returns, returns, bind, Delta, Holds}
use lex_leo.DynamicBuffer.{
  size_max, DynamicBufferStream, copy_at, append_bytes, dynamic_buffer_stream_write, write_some,
}
use lex_leo.DynamicBuffer.Growth.{Fits, grow_cap-total}
use lex_leo.DynamicBuffer.Reserve.{
  Reserved, ReserveOutcome, reserved, denied, dynamic_buffer_stream_buffer_reserve_lem,
}
use lex_leo.DynamicBuffer.Contents.{
  stored, unread, IsValid, own_dbs, IsValid-well_formed, length-stored,
}

module _ (bytes src : List ℕ) (at n : ℕ) (room : at + n ≤ length bytes)
    (long : n ≤ length src) where
  length-copy_at : length (copy_at bytes at src n) ≡ length bytes
  unfolding copy_at
  length-copy_at =
      rw (length-append, length-append)
        (omega (arith, length-take at bytes, length-take n src, length-drop (at + n) bytes))

  take-copy_at : take (at + n) (copy_at bytes at src n) ≡ take at bytes ++ take n src
  unfolding copy_at
  take-copy_at =
      let front = take at bytes ++ take n src in
      let exact : length front ≡ at + n =
        rw length-append (omega (arith, length-take at bytes, length-take n src)) in
      rw (← append_assoc (take at bytes) (take n src) (drop (at + n) bytes)) (
        take-append_le (at + n) front (drop (at + n) bytes) (omega arith)
        ∙ take-all (at + n) front (omega arith))

-- What a write of `n` bytes of `src` leaves: on OK they are appended; on INVALID or OOM nothing has
-- changed.
pub record Written (s : DynamicBufferStream) (src : List ℕ) (s' : DynamicBufferStream)
    : Type 0 where
  pub valid : IsValid s'.dbuf
  pub content : stored s'.dbuf ≡ stored s.dbuf ++ src
  pub pending : unread s'.dbuf ≡ unread s.dbuf ++ src

pub data WriteOutcome (s : DynamicBufferStream) (src : List ℕ) (n : ℕ)
    : ℕ → StreamStatus → DynamicBufferStream → Type 0 where
  all_written :
      {s' : DynamicBufferStream}
      → Written s (take n src) s'
      → WriteOutcome s src n n StreamStatus.ok s'
  too_long : size_max < s.dbuf.len + n → WriteOutcome s src n 0 StreamStatus.invalid s
  no_memory : s.dbuf.cap < s.dbuf.len + n → WriteOutcome s src n 0 StreamStatus.oom s

abbrev pub WritePost :
    DynamicBufferStream
    → List ℕ
    → ℕ
    → World
    → ℕ × StreamStatus × Option DynamicBufferStream
    → World
    → Type 0
WritePost s src n w (k, st, none) w' = ⊥
WritePost s src n w (k, st, some s') w' =
    WriteOutcome s src n k st s' × Delta (own_dbs s') (own_dbs s) w w'

appended : DynamicBufferStream → List ℕ → ℕ → DynamicBufferStream
appended s src n = record s {
  dbuf = record s.dbuf { bytes = copy_at s.dbuf.bytes s.dbuf.len src n; len = s.dbuf.len + n };
}

appended-Written :
    (s s' : DynamicBufferStream) (src : List ℕ) (n : ℕ)
    → IsValid s.dbuf
    → Reserved s (s.dbuf.len + n) s'
    → n ≤ length src
    → Written s (take n src) (appended s' src n)
unfolding appended
appended-Written s s' src n v got long =
    let d = s'.dbuf in
    let room : d.len + n ≤ length d.bytes = omega (arith, got.valid.size, got.room, got.len) in
    let content : take (d.len + n) (copy_at d.bytes d.len src n) ≡ stored s.dbuf ++ take n src =
      take-copy_at d.bytes src d.len n room long ∙ ap (λ l. l ++ take n src) got.kept in
    record {
      valid = record {
        has_buf = got.valid.has_buf;
        pos = got.valid.pos;
        bounded = got.valid.bounded;
        size = length-copy_at d.bytes src d.len n room long ∙ got.valid.size;
        order = omega (arith, got.valid.order);
        fits = omega (arith, got.room, got.len);
      };
      content = content;
      pending =
          ap (drop d.read_pos) content
          ∙ drop-append_le d.read_pos (stored s.dbuf) (take n src)
              (omega (arith, length-stored s.dbuf v, got.valid.order, got.len))
          ∙ ap (λ k. drop k (stored s.dbuf) ++ take n src) got.read_pos;
    }

Reserved-mono : {s s' : DynamicBufferStream} (b c : ℕ) → b ≤ c → Reserved s c s' → Reserved s b s'
Reserved-mono b c h g = record {
  valid = g.valid;
  kept = g.kept;
  len = g.len;
  read_pos = g.read_pos;
  room = omega (arith, g.room);
}

append_bytes_lem :
    (s : DynamicBufferStream) (src : List ℕ) (n c : ℕ) (w : World)
    → IsValid s.dbuf
    → n ≤ length src
    → Fits (s.dbuf.len + n) s.dbuf.cap c
    → {st : StreamStatus} {s' : DynamicBufferStream} → ReserveOutcome s c st s'
    → (w' : World) → Delta (own_dbs s') (own_dbs s) w w'
    → Returns (WritePost s src n w) (append_bytes src n (st, s') w')
unfolding append_bytes appended
append_bytes_lem s src n c w v long f (reserved {s'} got) w' delta =
    returns
      (all_written (appended-Written s s' src n v (Reserved-mono _ c f.enough got) long), delta)
append_bytes_lem s src n c w v long f (denied more) w' delta =
    returns (no_memory (omega (arith, f.tight)), delta)

write_some_lem :
    (s : DynamicBufferStream) (src : List ℕ) (n : ℕ) (w : World)
    → IsValid s.dbuf
    → n ≤ length src
    → Holds (own_dbs s) w
    → Returns (WritePost s src n w) (write_some s src n w)
unfolding write_some
write_some_lem s src n w v long own = elim (Bool-cases (ltb (size_max - s.dbuf.len) n)) [
  | inl big ↦
      let over = ltb→lt _ n big in
      rw big (returns (too_long (omega (arith, v.fits, v.bounded)), λ r. refl))
  | inr small ↦
      let h = ltb→ge _ n small in
      let (c, run, f) =
        grow_cap-total (s.dbuf.len + n) s.dbuf.cap v.pos v.bounded
          (omega (arith, v.fits, v.bounded)) in
      rw (small, run)
        (bind (dynamic_buffer_stream_buffer_reserve_lem s c w v f.bounded own)
          λ (st, s') w' post. append_bytes_lem s src n c w v long f post.0 w' post.1)
]

pub write_zero :
    (s : DynamicBufferStream) (src : List ℕ) (w : World)
    → IsValid s.dbuf
    → dynamic_buffer_stream_write (some s) (some src) 0 w ≡ done (0, StreamStatus.ok, some s) w
unfolding dynamic_buffer_stream_write
write_zero s src w v = rw (IsValid-well_formed s.dbuf v)

write_suc :
    (s : DynamicBufferStream) (src : List ℕ) (n : ℕ) (w : World)
    → IsValid s.dbuf
    → dynamic_buffer_stream_write (some s) (some src) (suc n) w ≡ write_some s src (suc n) w
unfolding dynamic_buffer_stream_write
write_suc s src n w v = rw (IsValid-well_formed s.dbuf v, suc-==-zero n)

-- A write of `n` bytes to a well-formed buffer that owns its blocks never aborts. It appends all
-- `n` bytes and reports OK, or changes nothing, writes 0 bytes and reports INVALID (only if the
-- length would pass SIZE_MAX) or OOM (only if the capacity does not suffice). The buffer stays well
-- formed, and its blocks stay its own.
pub dynamic_buffer_stream_write_lem :
    (s : DynamicBufferStream) (src : List ℕ) (n : ℕ) (w : World)
    → IsValid s.dbuf
    → n ≤ length src
    → Holds (own_dbs s) w
    → Returns (WritePost s src n w) (dynamic_buffer_stream_write (some s) (some src) n w)
dynamic_buffer_stream_write_lem s src zero w v long own = rw (write_zero s src w v) (
    returns (
      all_written
          (record { valid = v; content = sym (append-nil _); pending = sym (append-nil _) }),
      λ r. refl,
    ))
dynamic_buffer_stream_write_lem s src (suc n) w v long own =
    rw (write_suc s src n w v) (write_some_lem s src (suc n) w v long own)
