-- ===== src/DynamicBuffer/Contents.antt =====
-- What a dynamic buffer holds, when it is well formed, and how reading moves through it
-- (dynamic_buffer_stream_cr.c).
use lex_leo.Prelude.{
  ℕ, zero, suc, ◌+◌, ◌-◌, ◌≤◌, ◌<◌, ◌≡◌, refl, sym, ap, ◌∙◌, inl, inr, true, false, some, none,
  List, [], ◌∷◌, arith, ltb, leb, ◌==◌, if◌then◌else◌, is_some, Bool-cases, length, take, drop,
  length-take, length-drop, take-take, drop-drop, take-drop, take_cong, take-min, drop-min,
  suc-==-zero, eq-nil_of_length, Option, min, drop_cong,
}
use lex_leo.Status.{StreamStatus}
use lex_leo.Memory.{Resource, World, block, done}
use lex_leo.DynamicBuffer.{
  size_max, DynamicBuffer, DynamicBufferStream, well_formed, dynamic_buffer_stream_read,
}

-- The bytes written so far, and those not yet read.
abbrev pub stored : DynamicBuffer → List ℕ
stored d = take d.len d.bytes

abbrev pub unread : DynamicBuffer → List ℕ
unread d = drop d.read_pos (stored d)

pub record IsValid (d : DynamicBuffer) : Type 0 where
  pub has_buf : is_some d.buf ≡ true
  pub pos : 0 < d.cap
  pub bounded : d.cap ≤ size_max
  pub size : length d.bytes ≡ d.cap
  pub order : d.read_pos ≤ d.len
  pub fits : d.len ≤ d.cap

abbrev pub buf_block : Option ℕ → List Resource
buf_block none = []
buf_block (some p) = block p ∷ []

-- The heap blocks of a handle: its own and its storage.
abbrev pub own_dbs : DynamicBufferStream → List Resource
own_dbs s = block s.addr ∷ buf_block s.dbuf.buf

pub IsValid-well_formed : (d : DynamicBuffer) → IsValid d → well_formed d ≡ true
unfolding well_formed
IsValid-well_formed d v = ground arith

pub buf-eq_some : (d : DynamicBuffer) → IsValid d → (p : ℕ) × (d.buf ≡ some p)
buf-eq_some d v = ground arith

pub length-stored : (d : DynamicBuffer) → IsValid d → length (stored d) ≡ d.len
length-stored d v = omega (arith, length-take d.len d.bytes)

pub length-unread : (d : DynamicBuffer) → IsValid d → length (unread d) ≡ d.len - d.read_pos
length-unread d v = omega (arith, length-drop d.read_pos (stored d), length-stored d v)

-- What `osal_memcpy` out of the buffer yields is the head of the unread bytes.
slice :
    (d : DynamicBuffer) (n : ℕ)
    → d.read_pos + n ≤ d.len
    → take n (drop d.read_pos d.bytes) ≡ take n (unread d)
slice d n h =
    take-drop n d.read_pos d.bytes
    ∙ ap (drop d.read_pos) (sym (take-take (d.read_pos + n) d.len d.bytes h))
    ∙ sym (take-drop n d.read_pos (stored d))

abbrev pub read_status : DynamicBuffer → ℕ → StreamStatus
read_status d n =
    if n == 0
    then StreamStatus.ok
    else if length (unread d) == 0
    then StreamStatus.eof
    else StreamStatus.ok

-- What a read of `n` bytes leaves: the cursor behind the bytes that were delivered.
pub record ReadFrom (s : DynamicBufferStream) (n : ℕ) (s' : DynamicBufferStream) : Type 0 where
  pub valid : IsValid s'.dbuf
  pub rest : unread s'.dbuf ≡ drop n (unread s.dbuf)
  pub kept : stored s'.dbuf ≡ stored s.dbuf
  pub owner : own_dbs s' ≡ own_dbs s

advance : DynamicBufferStream → ℕ → DynamicBufferStream
advance s k = record s { dbuf = record s.dbuf { read_pos = s.dbuf.read_pos + k } }

advance-ReadFrom :
    (s : DynamicBufferStream) (n k : ℕ)
    → IsValid s.dbuf
    → k ≡ min n (length (unread s.dbuf))
    → ReadFrom s n (advance s k)
unfolding advance
advance-ReadFrom s n k v e = record {
  valid = ground (arith, length-unread s.dbuf v);
  rest =
      let u = unread s.dbuf in
      sym (drop-drop k s.dbuf.read_pos (stored s.dbuf)) ∙ drop_cong k _ u e ∙ drop-min n u;
  kept = refl;
  owner = refl;
}

pub read_zero :
    (s : DynamicBufferStream) (w : World)
    → IsValid s.dbuf
    → dynamic_buffer_stream_read (some s) true 0 w ≡ done ([], StreamStatus.ok, some s) w
unfolding dynamic_buffer_stream_read
read_zero s w v = rw (IsValid-well_formed s.dbuf v)

read_eof :
    (s : DynamicBufferStream) (n : ℕ) (w : World)
    → IsValid s.dbuf
    → leb s.dbuf.len s.dbuf.read_pos ≡ true
    → dynamic_buffer_stream_read (some s) true (suc n) w ≡ done ([], StreamStatus.eof, some s) w
unfolding dynamic_buffer_stream_read
read_eof s n w v h = rw (IsValid-well_formed s.dbuf v, suc-==-zero n, h)

read_more :
    (s : DynamicBufferStream) (n : ℕ) (w : World)
    → IsValid s.dbuf
    → leb s.dbuf.len s.dbuf.read_pos ≡ false
    → let k =
        (if ltb (s.dbuf.len - s.dbuf.read_pos) (suc n)
          then s.dbuf.len - s.dbuf.read_pos
          else suc n) in
      dynamic_buffer_stream_read (some s) true (suc n) w
      ≡ done (take k (drop s.dbuf.read_pos s.dbuf.bytes), StreamStatus.ok, some (advance s k)) w
unfolding dynamic_buffer_stream_read advance
read_more s n w v h = rw (IsValid-well_formed s.dbuf v, suc-==-zero n, h)

-- A read of `n` bytes from a well-formed buffer into a destination delivers the first `n` unread bytes, or all of them where
-- there are fewer, reports EOF exactly when something was asked for and nothing was left, moves the
-- cursor behind what it delivered, and touches neither the stored bytes nor the heap.
pub dynamic_buffer_stream_read_lem :
    (s : DynamicBufferStream) (n : ℕ) (w : World)
    → IsValid s.dbuf
    → (s' : DynamicBufferStream) × (dynamic_buffer_stream_read (some s) true n w
        ≡ done (take n (unread s.dbuf), read_status s.dbuf n, some s') w)
      × ReadFrom s n s'
dynamic_buffer_stream_read_lem s zero w v =
    (s, read_zero s w v, record { valid = v; rest = refl; kept = refl; owner = refl })
dynamic_buffer_stream_read_lem s (suc n) w v = elim (Bool-cases (leb s.dbuf.len s.dbuf.read_pos)) [
  | inl h ↦
      let none_left : unread s.dbuf ≡ [] =
        eq-nil_of_length (unread s.dbuf) (ground (arith, length-unread s.dbuf v)) in
      (
        s,
        read_eof s n w v h ∙ rw (none_left, suc-==-zero n),
        record { valid = v; rest = rw none_left; kept = refl; owner = refl },
      )
  | inr h ↦
      let u = unread s.dbuf in
      let avail = s.dbuf.len - s.dbuf.read_pos in
      let k = (if ltb avail (suc n) then avail else suc n) in
      let some_left : (length u == 0) ≡ false = ground (arith, length-unread s.dbuf v) in
      let e : k ≡ min (suc n) (length u) = ground (arith, length-unread s.dbuf v) in
      let bytes : take k (drop s.dbuf.read_pos s.dbuf.bytes) ≡ take (suc n) u =
        slice s.dbuf k (ground arith)
        ∙ take_cong k (min (suc n) (length u)) u e
        ∙ take-min (suc n) u in
      (
        advance s k,
        read_more s n w v h ∙ rw (bytes, suc-==-zero n, some_left),
        advance-ReadFrom s (suc n) k v e,
      )
]
