-- ===== src/Machinery/Name/RoundTrip.antt =====
-- The canonical text of a name determines it: `as_str` and `from_parsed` of name.rs.
use spica.Base.{
  ℕ, ◌<◌, ◌≡◌, refl, sym, ap, ◌∙◌, true, not, Option, none, some, [], ◌∷◌, ◌++◌, append-nil, arith,
  ℕ_discrete, holds, Str, all, Result, ok, split_once, split_once_absent, split_once_at, all-append,
  all-weaken,
}
use spica.Machinery.Decimal.{
  is_digit, u64_mod, format_u64, format_u64_is_digits, parse_u64-format_u64, parse_u64-lt,
}
use spica.Machinery.Name.{
  PlainName, ObjectName, plain, generated, NameError, is_plain_byte, is_name_byte,
  starts_alphanumeric, is_valid_plain, as_str, from_parsed, parse_flavor, generated_from_key,
  IsValidPlain, IsValid,
}

plain_not_dash : (x : ℕ) → is_plain_byte x ≡ true → not (holds (ℕ_discrete x b'-')) ≡ true
unfolding ℕ_discrete
plain_not_dash x h = ground arith

plain_is_name : (x : ℕ) → is_plain_byte x ≡ true → is_name_byte x ≡ true
plain_is_name x h = ground arith

digit_is_name : (x : ℕ) → is_digit x ≡ true → is_name_byte x ≡ true
digit_is_name x h = ground arith

-- The parts of the test of `PlainName::new` that parsing needs.
valid_bytes : (s : Str) → is_valid_plain s ≡ true → all is_plain_byte s ≡ true
valid_bytes [] h = refl
valid_bytes (x ∷ xs) h = ground arith

valid_starts : (s t : Str) → is_valid_plain s ≡ true → starts_alphanumeric (s ++ t) ≡ true
valid_starts [] t h = cc
valid_starts (x ∷ xs) t h = ground arith

valid_no_dash :
    (s : Str) → is_valid_plain s ≡ true → all (λ x. not (holds (ℕ_discrete x b'-'))) s ≡ true
valid_no_dash s h = all-weaken is_plain_byte _ plain_not_dash s (valid_bytes s h)

valid_names : (s : Str) → is_valid_plain s ≡ true → all is_name_byte s ≡ true
valid_names s h = all-weaken is_plain_byte _ plain_is_name s (valid_bytes s h)

generated_names :
    (s : Str) (n : ℕ) → is_valid_plain s ≡ true → all is_name_byte (s ++ b'-' ∷ format_u64 n) ≡ true
generated_names s n h =
    all-append is_name_byte s (b'-' ∷ format_u64 n) (valid_names s h)
      (all-weaken is_digit is_name_byte digit_is_name (format_u64 n) (format_u64_is_digits n))

from_parsed_plain : (p : PlainName) → IsValidPlain p → from_parsed p.text ≡ ok (plain p)
unfolding from_parsed
from_parsed_plain p h =
    let starts : starts_alphanumeric p.text ≡ true = rw append-nil at (valid_starts p.text [] h) in
    ground
      (arith, starts, valid_names p.text h, split_once_absent b'-' p.text (valid_no_dash p.text h))

from_parsed_generated :
    (p : PlainName) (n : ℕ)
    → IsValidPlain p
    → n < u64_mod
    → from_parsed (p.text ++ b'-' ∷ format_u64 n) ≡ ok (generated_from_key p n)
unfolding from_parsed
from_parsed_generated p n h k = ground (
  arith,
  valid_starts p.text (b'-' ∷ format_u64 n) h,
  generated_names p.text n h,
  split_once_at b'-' p.text (format_u64 n) (valid_no_dash p.text h),
  parse_u64-format_u64 n k,
)

-- Parsing the canonical text of a valid name gives back the name, plain or generated.
pub from_parsed-as_str : (n : ObjectName) → IsValid n → from_parsed (as_str n) ≡ ok n
unfolding as_str
from_parsed-as_str (plain p) h = from_parsed_plain p h
from_parsed-as_str (generated g) h = from_parsed_generated g.base g.suffix h.0 h.1

ok-injective : (a b : ObjectName) → ◌≡◌ {A = Result NameError ObjectName} (ok a) (ok b) → a ≡ b
ok-injective a b h = cc

-- Two validated names with one canonical text are one name: no plain name is the text of a
-- generated one, and no two bases or suffixes run together.
pub as_str-injective : (a b : ObjectName) → IsValid a → IsValid b → as_str a ≡ as_str b → a ≡ b
as_str-injective a b va vb e =
    ok-injective a b (sym (from_parsed-as_str a va) ∙ ap from_parsed e ∙ from_parsed-as_str b vb)

parse_flavor-IsValid :
    (raw : Str) (parts : Option (Str × Str)) (n : ObjectName)
    → parse_flavor raw parts ≡ ok n
    → IsValid n
unfolding parse_flavor
parse_flavor-IsValid raw none (plain p) h = ground arith
parse_flavor-IsValid raw none (generated g) h = ground arith
parse_flavor-IsValid raw (some (base, suffix)) (plain p) h = ground arith
parse_flavor-IsValid raw (some (base, suffix)) (generated g) h =
    (ground arith, ground (arith, parse_u64-lt suffix g.suffix))

-- What parsing accepts is a valid name: its plain part passes the test of plain names, and its
-- suffix fits a `u64`.
pub from_parsed-IsValid : (raw : Str) (n : ObjectName) → from_parsed raw ≡ ok n → IsValid n
unfolding from_parsed
from_parsed-IsValid raw n h = parse_flavor-IsValid raw (split_once b'-' raw) n (ground arith)

name_not_slash : (x : ℕ) → is_name_byte x ≡ true → not (holds (ℕ_discrete x b'/')) ≡ true
unfolding ℕ_discrete
name_not_slash x h = ground arith

-- A validated name holds no `/`, the separator of an address.
pub as_str_no_slash :
    (n : ObjectName) → IsValid n → all (λ x. not (holds (ℕ_discrete x b'/'))) (as_str n) ≡ true
unfolding as_str
as_str_no_slash (plain p) h = all-weaken is_name_byte _ name_not_slash p.text (valid_names p.text h)
as_str_no_slash (generated g) h =
    all-weaken is_name_byte _ name_not_slash _ (generated_names g.base.text g.suffix h.0)
