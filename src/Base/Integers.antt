-- ===== src/Base/Integers.antt =====
-- `i64`: `negsuc n` is -(n + 1).
use mathlib.Core.Path.{◌≡◌}
use native.Mathlib.Omega.{arith}
use Prim.Native.Nat.{ℕ, zero, suc, ◌+◌, ◌-◌, ◌^◌, ◌<◌}
use mathlib.Core.Bool.{Bool, true, false}
use spica.Base.Tests.{ltb, leb, if◌then◌else◌}

pub data ℤ : Type 0 where
  pos : ℕ → ℤ
  negsuc : ℕ → ℤ

-- `n.max(0)`.
abbrev pub pos_part : ℤ → ℕ
pos_part (pos n) = n
pos_part (negsuc n) = 0

abbrev pub leb_ℤ : ℤ → ℤ → Bool
leb_ℤ (pos a) (pos b) = leb a b
leb_ℤ (pos a) (negsuc b) = false
leb_ℤ (negsuc a) (pos b) = true
leb_ℤ (negsuc a) (negsuc b) = leb b a

-- `a.max(b)`.
abbrev pub max_ℤ : ℤ → ℤ → ℤ
max_ℤ a b = if leb_ℤ a b then b else a

-- `n as i64` of a `u64`: the same 64 bits.
abbrev pub as_i64 : ℕ → ℤ
as_i64 n = if ltb n (2 ^ 63) then pos n else negsuc (2 ^ 64 - 1 - n)

-- `n + 1` on `i64`, wrapping as in a release build.
abbrev pub succ_i64 : ℤ → ℤ
succ_i64 (pos n) = if ltb (n + 1) (2 ^ 63) then pos (n + 1) else negsuc (2 ^ 63 - 1)
succ_i64 (negsuc zero) = pos 0
succ_i64 (negsuc (suc n)) = negsuc n

pub max_ℤ-self : (a : ℤ) → max_ℤ a a ≡ a
max_ℤ-self (pos a) = ground arith
max_ℤ-self (negsuc a) = ground arith

pub max_ℤ-assoc : (a b c : ℤ) → max_ℤ (max_ℤ a b) c ≡ max_ℤ a (max_ℤ b c)
max_ℤ-assoc (pos a) (pos b) (pos c) = ground arith
max_ℤ-assoc (pos a) (pos b) (negsuc c) = ground arith
max_ℤ-assoc (pos a) (negsuc b) (pos c) = ground arith
max_ℤ-assoc (pos a) (negsuc b) (negsuc c) = ground arith
max_ℤ-assoc (negsuc a) (pos b) (pos c) = ground arith
max_ℤ-assoc (negsuc a) (pos b) (negsuc c) = ground arith
max_ℤ-assoc (negsuc a) (negsuc b) (pos c) = ground arith
max_ℤ-assoc (negsuc a) (negsuc b) (negsuc c) = ground arith

-- `n - 1` on `i64`, wrapping as in a release build.
abbrev pub pred_i64 : ℤ → ℤ
pred_i64 (pos zero) = negsuc 0
pred_i64 (pos (suc n)) = pos n
pred_i64 (negsuc n) = if ltb (n + 1) (2 ^ 63) then negsuc (n + 1) else pos (2 ^ 63 - 1)

-- The next position, while it fits.
pub succ_i64-pos : (n : ℕ) → n + 1 < 2 ^ 63 → succ_i64 (pos n) ≡ pos (n + 1)
succ_i64-pos n h = ground arith
