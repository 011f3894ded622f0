-- ===== src/Client/Backoff.antt =====
-- im/client/net/backoff.py: the retry schedule, at the default parameters. The delays before jitter
-- are whole seconds, which a float holds exactly.
use socket_to_ciphertext.Prelude.{
  ℕ, zero, suc, ◌+◌, ◌^◌, ◌*◌, ◌≤◌, ◌<◌, min, ◌≡◌, Option, none, some, ltb, arith, if◌then◌else◌,
}
use native.Mathlib.Omega.{pow_step}
use native.Mathlib.Numerals.{add-one}

-- FIRST_DELAY, FACTOR, MAX_DELAY
abbrev pub first_delay : ℕ
first_delay = 1

abbrev pub factor : ℕ
factor = 2

abbrev pub max_delay : ℕ
max_delay = 30

pub record Backoff : Type 0 where
  pub attempts : ℕ

abbrev pub fresh : Backoff
fresh = record { attempts = 0 }

abbrev pub reset : Backoff → Backoff
reset b = record b { attempts = 0 }

-- `2.0 ** attempts` raises OverflowError from 1024 on.
abbrev pub overflow : ℕ
overflow = 1024

-- `none`: the power raises.
unfoldable pub nominal : Backoff → Option ℕ
nominal b =
    if ltb b.attempts overflow
    then some (min (first_delay * factor ^ b.attempts) max_delay)
    else none

-- The delay before jitter, and the schedule advanced, unless the power raises.
unfoldable pub next_delay : Backoff → Option ℕ × Backoff
unfolding nominal
next_delay b = elim (nominal b) [
  | none ↦ (none, b)
  | some delay ↦ (some delay, record b { attempts = suc b.attempts })
]

power-pos : (n : ℕ) → 1 ≤ factor ^ n
power-pos zero = omega arith
power-pos (suc n) = omega (arith, pow_step factor n, power-pos n)

-- Up to 1024 attempts after a reset a delay is answered, between one second and thirty: twice the
-- delay before it, or thirty.
nominal_bounds :
    (n : ℕ)
    → n + 1 < 1024
    → (d e : ℕ) × (nominal (record { attempts = n }) ≡ some d)
      × (nominal (record { attempts = n + 1 }) ≡ some e)
      × (e ≡ min (2 * d) 30)
      × (1 ≤ d)
      × (d ≤ 30)
unfolding nominal
nominal_bounds n h = (
  min (factor ^ n) max_delay,
  min (factor ^ (n + 1)) max_delay,
  ground arith,
  ground arith,
  rw add-one (omega (arith, pow_step factor n)),
  omega (arith, power-pos n),
  omega arith,
)

-- The schedule after some calls of `next_delay`, those that raise included.
unfoldable pub after : ℕ → Backoff → Backoff
unfolding next_delay
after zero b = b
after (suc k) b = (next_delay (after k b)).1

-- One second, and then twice the delay before, up to thirty.
abbrev pub expected : ℕ → ℕ
expected zero = 1
expected (suc k) = min (2 * expected k) 30

expected-power : (k : ℕ) → expected k ≡ min (factor ^ k) max_delay
expected-power zero = omega arith
expected-power (suc k) = omega (arith, pow_step factor k, expected-power k)

next_delay-attempts :
    (b : Backoff)
    → ((next_delay b).1).attempts ≡ (if ltb b.attempts 1024 then suc b.attempts else b.attempts)
unfolding next_delay nominal
next_delay-attempts b = ground arith

after-attempts : (k : ℕ) (b : Backoff) → (after k (reset b)).attempts ≡ min k 1024
unfolding after
after-attempts zero b = omega arith
after-attempts (suc k) b =
    ground (arith, next_delay-attempts (after k (reset b)), after-attempts k b)

next_delay-answer :
    (b : Backoff)
    → (next_delay b).0
      ≡ (if ltb b.attempts 1024 then some (min (factor ^ b.attempts) max_delay) else none)
unfolding next_delay nominal
next_delay-answer b = ground arith

-- After a reset, the first call of `next_delay` answers one second, and each of the 1023 calls after it
-- twice the delay before it, up to thirty; every later call raises. This is before jitter.
pub next_delay-after :
    (b : Backoff) (k : ℕ)
    → (next_delay (after k (reset b))).0 ≡ (if ltb k 1024 then some (expected k) else none)
next_delay-after b k =
    ground (arith, next_delay-answer (after k (reset b)), after-attempts k b, expected-power k)
