-- ===== src/Application/Burst/Random.antt =====
-- The random states: 32 bits wide and never 0, so that the generator never gets stuck.
use Prim.Native.Nat.{bit_xor}
use os_mini_project.Common.{ℕ, ◌*◌, ◌/◌, ◌%◌, ◌^◌, ◌<◌, ◌≡◌, arith}
use os_mini_project.Common.Bits.{bit_xor_bounds}
use os_mini_project.Application.Burst.{
  first_state, shift_left_13, shift_right_17, next_state, scaled,
}

abbrev pub IsState : ℕ → Type 0
IsState state = (0 < state) × (state < 2 ^ 32)

xor-IsState : (a b : ℕ) → IsState a → b < 2 ^ 32 → (a ≡ b → a ≡ 0) → IsState (bit_xor a b)
xor-IsState a b h k apart =
    let (bound, same) = bit_xor_bounds 32 a b h.1 k in (ground (arith, h.0, same, apart), bound)

pub next_state-IsState : (state : ℕ) → IsState state → IsState (next_state state)
unfolding next_state
next_state-IsState state h =
    let a =
      xor-IsState state ((state * 2 ^ 13) % 2 ^ 32) h (omega arith) (λ e. omega (arith, e, h.1)) in
    let b =
      xor-IsState (shift_left_13 state) (shift_left_13 state / 2 ^ 17) a (omega (arith, a.1))
        (λ e. omega (arith, e)) in
    xor-IsState (shift_right_17 (shift_left_13 state)) _ b (omega arith)
      (λ e. omega (arith, e, b.1))

pub first_state-IsState : (seed : ℕ) → seed < 2 ^ 32 → IsState (first_state seed)
first_state-IsState seed h = ground arith

-- A random number below 1 gives an index below `n`.
pub scaled-below : (state n : ℕ) → state < 2 ^ 32 → 0 < n → scaled state n < n
scaled-below state n h k = grind arith
