-- ===== src/Machinery/Timestamp.antt =====
-- crates/machinery/src/timestamp.rs: milliseconds since the epoch, a `u64`.
use spica.Base.{ℕ, ◌+◌, ◌-◌, ◌<◌, ◌≡◌, Option, none, some, arith, ltb, if◌then◌else◌}
use spica.Machinery.Decimal.{u64_mod}

abbrev pub Timestamp : Type 0
Timestamp = ℕ

-- `checked_add` of a duration in milliseconds, which `as_millis` gives as a `u128`.
unfoldable pub checked_add : Timestamp → ℕ → Option Timestamp
checked_add t millis =
    if ltb millis u64_mod
    then (if ltb (t + millis) u64_mod then some (t + millis) else none)
    else none

-- The gap in milliseconds, floored at 0.
abbrev pub saturating_duration_since : Timestamp → Timestamp → ℕ
saturating_duration_since t earlier = t - earlier

-- Adding refuses exactly the sums that the type cannot hold, and is exact otherwise.
pub checked_add_exact :
    (t millis : ℕ)
    → checked_add t millis ≡ (if ltb (t + millis) u64_mod then some (t + millis) else none)
unfolding checked_add
checked_add_exact t millis = ground arith

pub checked_add-some :
    (t millis u : ℕ) → checked_add t millis ≡ some u → (u ≡ t + millis) × (u < u64_mod)
unfolding checked_add
checked_add-some t millis u h = ground arith
