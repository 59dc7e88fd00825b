-- ===== src/Machinery/Decimal.antt =====
-- Rust's `Display` for `u64` and `str::parse::<u64>`, which name.rs prints and reads suffixes with.
use native.Mathlib.Nat.{pow-suc}
use spica.Base.{
  ℕ, zero, suc, ◌+◌, ◌-◌, ◌*◌, ◌/◌, ◌%◌, ◌^◌, ◌≤◌, ◌<◌, ◌≡◌, refl, ◌∙◌, inl, inr, Bool, true, ◌&&◌,
  Option, none, some, [], ◌∷◌, arith, ltb, leb, ◌==◌, if◌then◌else◌, Bool-cases, Str, codes, length,
  all,
}

abbrev pub u64_mod : ℕ
u64_mod = 2 ^ 64

abbrev pub is_digit : ℕ → Bool
is_digit c = leb b'0' c && leb c b'9'

-- Digits are written from the least, below `out`. A `u64` has at most 20 of them.
digits : ℕ → ℕ → Str → Str
digits zero n out = out
digits (suc f) n out =
    let more = digits f (n / 10) ((b'0' + n % 10) ∷ out) in
    if ltb n 10 then (b'0' + n) ∷ out else more

unfoldable pub format_u64 : ℕ → Str
unfolding digits
format_u64 n = digits 20 n []

-- `checked_mul(10)` and `checked_add(digit)`.
scan : ℕ → Str → Option ℕ
scan acc [] = some acc
scan acc (c ∷ s) =
    let next = acc * 10 + (c - b'0') in
    let rest = scan next s in if is_digit c then (if ltb next u64_mod then rest else none) else none

-- The empty text is refused, and one leading `+` is skipped before at least one digit.
unfoldable pub parse_u64 : Str → Option ℕ
unfolding scan
parse_u64 [] = none
parse_u64 (c ∷ []) = scan 0 (c ∷ [])
parse_u64 (c ∷ d ∷ s) = if c == b'+' then scan 0 (d ∷ s) else scan 0 (c ∷ d ∷ s)

-- Reading the digits of `n` and then `out` is reading `out` from `n`.
scan-digits :
    (f n : ℕ) (out : Str) → n < 10 ^ f → n < u64_mod → scan 0 (digits f n out) ≡ scan n out
unfolding digits scan
scan-digits zero n out h k = let e : n ≡ 0 = omega arith in rw e
scan-digits (suc f) n out h k = elim (Bool-cases (ltb n 10)) [
  | inl small ↦ ground arith
  | inr large ↦
      let bound : n / 10 < 10 ^ f = omega (arith, pow-suc 10 f) in
      rw large (scan-digits f (n / 10) ((b'0' + n % 10) ∷ out) bound (omega arith) ∙ ground arith)
]

digits_are_digits :
    (f n : ℕ) (out : Str) → all is_digit out ≡ true → all is_digit (digits f n out) ≡ true
unfolding digits
digits_are_digits zero n out h = h
digits_are_digits (suc f) n out h =
    ground (arith, digits_are_digits f (n / 10) ((b'0' + n % 10) ∷ out))

length-digits-le : (f n : ℕ) (out : Str) → length out ≤ length (digits f n out)
unfolding digits
length-digits-le zero n out = omega arith
length-digits-le (suc f) n out = ground (arith, length-digits-le f (n / 10) ((b'0' + n % 10) ∷ out))

pub format_u64_is_digits : (n : ℕ) → all is_digit (format_u64 n) ≡ true
unfolding format_u64
format_u64_is_digits n = digits_are_digits 20 n [] refl

length-digits_pos : (f n : ℕ) (out : Str) → 1 ≤ length (digits (suc f) n out)
unfolding digits
length-digits_pos f n out = ground (arith, length-digits-le f (n / 10) ((b'0' + n % 10) ∷ out))

parse_u64-scan : (s : Str) → all is_digit s ≡ true → 1 ≤ length s → parse_u64 s ≡ scan 0 s
unfolding parse_u64
parse_u64-scan [] h k = absurd (omega arith)
parse_u64-scan (c ∷ []) h k = refl
parse_u64-scan (c ∷ d ∷ s) h k = ground arith

-- What is printed is read back, for every value of the type.
pub parse_u64-format_u64 : (n : ℕ) → n < u64_mod → parse_u64 (format_u64 n) ≡ some n
unfolding format_u64
parse_u64-format_u64 n h =
    parse_u64-scan (digits 20 n []) (digits_are_digits 20 n [] refl) (length-digits_pos 19 n [])
    ∙ scan-digits 20 n [] (omega arith) h
    ∙ unfold scan in refl

scan-lt : (acc n : ℕ) (s : Str) → acc < u64_mod → scan acc s ≡ some n → n < u64_mod
unfolding scan
scan-lt acc n [] k h = ground arith
scan-lt acc n (c ∷ s) k h = ground (arith, scan-lt (acc * 10 + (c - b'0')) n s)

-- What is read fits the type.
pub parse_u64-lt : (s : Str) (n : ℕ) → parse_u64 s ≡ some n → n < u64_mod
unfolding parse_u64
parse_u64-lt [] n h = cc
parse_u64-lt (c ∷ []) n h = scan-lt 0 n (c ∷ []) (omega arith) h
parse_u64-lt (c ∷ d ∷ s) n h = ground (arith, scan-lt 0 n (d ∷ s), scan-lt 0 n (c ∷ d ∷ s))

format_runs : format_u64 1204 ≡ codes "1204"
unfolding format_u64
format_runs = refl

parse_runs : parse_u64 (codes "18446744073709551616") ≡ none
unfolding parse_u64
parse_runs = refl
