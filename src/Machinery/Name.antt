-- ===== src/Machinery/Name.antt =====
-- crates/machinery/src/name.rs: plain names, generated names and their canonical text.
pub mod RoundTrip
use spica.Base.{
  ℕ, ◌<◌, ◌≡◌, Bool, true, false, ◌&&◌, ◌||◌, Option, none, some, [], ◌∷◌, ◌++◌, ℕ_discrete, leb,
  ◌==◌, if◌then◌else◌, Str, length, all, Result, ok, err, ◌>>=◌, split_once,
}
use spica.Machinery.Decimal.{u64_mod, format_u64, parse_u64}

-- The error carries the text that its message quotes.
pub data NameError : Type 0 where
  invalid : Str → NameError

pub record PlainName : Type 0 where
  pub text : Str

-- `ScopeName` (tenants and namespaces) is an alias.
abbrev pub ScopeName : Type 0
ScopeName = PlainName

pub record GeneratedName : Type 0 where
  pub base : PlainName
  pub suffix : ℕ

pub data ObjectName : Type 0 where
  plain : PlainName → ObjectName
  generated : GeneratedName → ObjectName

unfoldable pub ObjectName-discrete : Discrete ObjectName
ObjectName-discrete = hlevel ℕ_discrete

unfoldable pub PlainName-discrete : Discrete PlainName
PlainName-discrete = hlevel ℕ_discrete

abbrev pub is_ascii_alphanumeric : ℕ → Bool
is_ascii_alphanumeric b =
    (leb b'0' b && leb b b'9') || (leb b'A' b && leb b b'Z') || (leb b'a' b && leb b b'z')

abbrev pub is_plain_byte : ℕ → Bool
is_plain_byte b = is_ascii_alphanumeric b || b == b'_'

abbrev pub is_name_byte : ℕ → Bool
is_name_byte b = is_ascii_alphanumeric b || b == b'_' || b == b'-'

-- `bytes[0].is_ascii_alphanumeric()`, which the source reads of a text that is not empty.
abbrev pub starts_alphanumeric : Str → Bool
starts_alphanumeric [] = false
starts_alphanumeric (b ∷ _) = is_ascii_alphanumeric b

-- The test of `PlainName::new`.
abbrev pub is_valid_plain : Str → Bool
is_valid_plain raw =
    leb 4 (length raw) && leb (length raw) 64 && starts_alphanumeric raw && all is_plain_byte raw

-- `PlainName::new`.
unfoldable pub new_plain_name : Str → Result NameError PlainName
new_plain_name raw = if is_valid_plain raw then ok (record { text = raw }) else err (invalid raw)

abbrev pub generated_from_key : PlainName → ℕ → ObjectName
generated_from_key base key = generated (record { base = base; suffix = key })

-- `ObjectName::plain`.
unfoldable pub new_plain : Str → Result NameError ObjectName
unfolding new_plain_name
new_plain raw = do name ← new_plain_name raw; ok (plain name)

abbrev pub base : ObjectName → PlainName
base (plain p) = p
base (generated g) = g.base

abbrev pub suffix : ObjectName → Option ℕ
suffix (plain p) = none
suffix (generated g) = some g.suffix

abbrev pub as_plain : ObjectName → Option PlainName
as_plain (plain p) = some p
as_plain (generated g) = none

abbrev pub is_generated : ObjectName → Bool
is_generated (plain p) = false
is_generated (generated g) = true

unfoldable pub as_str : ObjectName → Str
as_str (plain p) = p.text
as_str (generated g) = g.base.text ++ b'-' ∷ format_u64 g.suffix

-- The two flavours, told apart by the first `-`.
unfoldable pub parse_flavor : Str → Option (Str × Str) → Result NameError ObjectName
unfolding new_plain_name
parse_flavor raw (some (base, suffix)) = elim (parse_u64 suffix) [
  | none ↦ err (invalid suffix)
  | some key ↦ do name ← new_plain_name base; ok (generated_from_key name key)
]
parse_flavor raw none = do name ← new_plain_name raw; ok (plain name)

-- `ObjectName::from_parsed`, also its `FromStr` and the text that `Deserialize` reads.
unfoldable pub from_parsed : Str → Result NameError ObjectName
unfolding parse_flavor
from_parsed raw =
    if starts_alphanumeric raw && all is_name_byte raw
    then parse_flavor raw (split_once b'-' raw)
    else err (invalid raw)

-- What every constructed name satisfies: the base passed `PlainName::new`, the suffix is a `u64`.
abbrev pub IsValidPlain : PlainName → Type 0
IsValidPlain p = is_valid_plain p.text ≡ true

abbrev pub IsValid : ObjectName → Type 0
IsValid (plain p) = IsValidPlain p
IsValid (generated g) = IsValidPlain g.base × (g.suffix < u64_mod)
