-- ===== src/DynamicBuffer/Growth.antt =====
-- The capacity loop of dynamic_buffer_stream_write (dynamic_buffer_stream_cr.c).
use lex_leo.Prelude.{
  ℕ, zero, suc, ◌*◌, ◌^◌, ◌≤◌, ◌<◌, ◌≡◌, ◌/◌, ◌⊎◌, inl, inr, some, arith, ltb, ltb→lt, ltb→ge,
  ge→ltb, false, ◌==◌, Bool-cases,
}
use native.Mathlib.Nat.{pow-suc, mul_assoc, mul_comm}
use lex_leo.DynamicBuffer.{size_max, dynamic_buffer_stream_next_cap, grow_cap, grow_fuel}

-- A capacity `c` that holds `need`, no less than `cap`, within `size_t`, and below twice the need
-- unless `cap` was kept.
pub record Fits (need cap c : ℕ) : Type 0 where
  pub enough : need ≤ c
  pub grows : cap ≤ c
  pub bounded : c ≤ size_max
  pub tight : (c ≡ cap) ⊎ ((cap < need) × (c < 2 * need))

double-pow : (need cap f : ℕ) → need ≤ cap * 2 ^ suc f → need ≤ (2 * cap) * 2 ^ f
double-pow need cap f h =
    let e : cap * 2 ^ suc f ≡ (2 * cap) * 2 ^ f =
      rw (
        pow-suc 2 f,
        ← mul_assoc cap (2 ^ f) 2,
        mul_comm (cap * 2 ^ f) 2,
        mul_assoc 2 cap (2 ^ f),
      ) in
    omega (arith, e, h)

-- One round, with the rest of the loop as `rest`.
pub grow_cap-Fits :
    (f need cap : ℕ)
    → 0 < cap
    → cap ≤ size_max
    → need ≤ size_max
    → need ≤ cap * 2 ^ f
    → (c : ℕ) × (grow_cap (suc f) need cap ≡ some c) × Fits need cap c
unfolding grow_cap dynamic_buffer_stream_next_cap
grow_cap-Fits zero need cap pos small fits room =
    let enough : need ≤ cap = omega arith in (cap, rw (ge→ltb cap need enough), omega arith)
grow_cap-Fits (suc f) need cap pos small fits room = elim (Bool-cases (ltb cap need)) [
  | inr e ↦ (cap, rw e, let h = ltb→ge cap need e in omega arith)
  | inl e ↦ elim (Bool-cases (ltb (size_max / 2) cap)) [
    | inl big ↦ (need, rw (e, big), let h = ltb→lt cap need e in omega arith)
    | inr half ↦
        let h = ltb→lt cap need e in
        let k = ltb→ge (size_max / 2) cap half in
        let nonzero : (2 * cap == 0) ≡ false = ground arith in
        let (c, run, r) =
          grow_cap-Fits f need (2 * cap) (omega arith) (omega arith) fits
            (double-pow need cap f room) in
        (c, rw (e, half, nonzero) run, omega arith)
  ]
]

-- From a positive capacity within `size_t`, and for a need within `size_t`, the loop ends within its
-- 65 rounds. The capacity it picks holds the need, is no less than the old one, is within `size_t`,
-- and is the old one or, if the need exceeds that, less than twice the need.
pub grow_cap-total :
    (need cap : ℕ)
    → 0 < cap
    → cap ≤ size_max
    → need ≤ size_max
    → (c : ℕ) × (grow_cap grow_fuel need cap ≡ some c) × Fits need cap c
grow_cap-total need cap pos small fits = grow_cap-Fits 64 need cap pos small fits (omega arith)
