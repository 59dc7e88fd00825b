-- ===== src/Types/Meta.antt =====
-- crates/engine-types/src/types/meta.rs: object kinds, typed and flat references, owner slots and
-- the metadata of every object. A ULID is the `u128` that it wraps; its nil is 0.
pub mod RoundTrip
use spica.Base.{
  ℕ, ite, Bool, Option, none, some, ◌∷◌, ◌++◌, ℕ_discrete, if◌then◌else◌, holds, Str, codes,
  Str-discrete, Result, ok, err, split_once,
}
use spica.Machinery.Timestamp.{Timestamp}
use spica.Machinery.Name.{
  PlainName, ScopeName, ObjectName, ObjectName-discrete, NameError, plain, generated_from_key,
  as_str, from_parsed,
}

pub data ObjectKind : Type 0 where
  flow flow_version execution thread activity task : ObjectKind

unfoldable pub ObjectKind-discrete : Discrete ObjectKind
ObjectKind-discrete = hlevel

-- `ObjectKind::as_str`.
unfoldable pub kind_str : ObjectKind → Str
kind_str flow = codes "flow"
kind_str flow_version = codes "flowversion"
kind_str execution = codes "execution"
kind_str thread = codes "thread"
kind_str activity = codes "activity"
kind_str task = codes "task"

abbrev str_eq : Str → Str → Bool
str_eq a b = holds (Str-discrete a b)

-- `ObjectKind::parse`.
unfoldable pub parse_kind : Str → Option ObjectKind
unfolding Str-discrete
parse_kind s =
    if str_eq s (codes "flow")
    then some flow
    else if str_eq s (codes "flowversion")
    then some flow_version
    else if str_eq s (codes "execution")
    then some execution
    else if str_eq s (codes "thread")
    then some thread
    else if str_eq s (codes "activity")
    then some activity
    else if str_eq s (codes "task")
    then some task
    else none

abbrev pub Ulid : Type 0
Ulid = ℕ

pub record RawObjectRef : Type 0 where
  pub kind : ObjectKind
  pub name : ObjectName
  pub uid : Ulid

unfoldable pub RawObjectRef-discrete : Discrete RawObjectRef
RawObjectRef-discrete = hlevel ℕ_discrete

-- `ObjectRef<K>` wraps a flat reference whose kind is `K::KIND`: the kind is the parameter.
pub record ObjectRef (k : ObjectKind) : Type 0 where
  pub name : ObjectName
  pub uid : Ulid

abbrev pub as_raw_object_ref : {k : ObjectKind} → ObjectRef k → RawObjectRef
as_raw_object_ref {k} r = record { kind = k; name = r.name; uid = r.uid }

pub record KindMismatch : Type 0 where
  pub seen : ObjectKind
  pub expected : ObjectKind

-- `ObjectRef::try_from`: the checked entry from the flat form.
unfoldable pub try_from : (k : ObjectKind) → RawObjectRef → Result KindMismatch (ObjectRef k)
unfolding ObjectKind-discrete
try_from k r =
    ite (ObjectKind-discrete r.kind k) (ok (record { name = r.name; uid = r.uid }))
      (err (record { seen = r.kind; expected = k }))

-- The owner slot of a thread: the run whose machine it runs, or the container that fanned it out.
pub data ThreadOwner : Type 0 where
  execution_owner : ObjectRef execution → ThreadOwner
  activity_owner : ObjectRef activity → ThreadOwner

pub data NoOwner : Type 0 where
  no_owner : NoOwner

-- `ObjectKindMarker::OwnedBy`, declared by the marker of each kind.
abbrev pub OwnedBy : ObjectKind → Type 0
OwnedBy flow = NoOwner
OwnedBy flow_version = ObjectRef flow
OwnedBy execution = NoOwner
OwnedBy thread = ThreadOwner
OwnedBy activity = ObjectRef thread
OwnedBy task = ObjectRef activity

-- `as_raw_object_ref` of the union: the address of the owner, whichever it is.
abbrev pub thread_owner_ref : ThreadOwner → RawObjectRef
thread_owner_ref (execution_owner r) = as_raw_object_ref r
thread_owner_ref (activity_owner r) = as_raw_object_ref r

decode_owner_of : ObjectKind → ObjectName → Ulid → Result ObjectKind ThreadOwner
decode_owner_of execution name uid = ok (execution_owner (record { name = name; uid = uid }))
decode_owner_of activity name uid = ok (activity_owner (record { name = name; uid = uid }))
decode_owner_of other name uid = err other

-- The `Deserialize` of the union: the kind on the wire picks the variant, any other is refused.
unfoldable pub decode_thread_owner : RawObjectRef → Result ObjectKind ThreadOwner
unfolding decode_owner_of
decode_thread_owner r = decode_owner_of r.kind r.name r.uid

-- `OwnerKindMarker::to_raw_object_ref`.
abbrev pub owner_ref : (k : ObjectKind) → OwnedBy k → Option RawObjectRef
owner_ref flow o = none
owner_ref flow_version o = some (as_raw_object_ref o)
owner_ref execution o = none
owner_ref thread o = some (thread_owner_ref o)
owner_ref activity o = some (as_raw_object_ref o)
owner_ref task o = some (as_raw_object_ref o)

pub record ObjectMeta (k : ObjectKind) : Type 0 where
  pub tenant : ScopeName
  pub namespace : ScopeName
  pub name : ObjectName
  pub uid : Ulid
  pub created_at : Timestamp
  pub updated_at : Timestamp
  pub owner : OwnedBy k

abbrev pub object_ref : {k : ObjectKind} → ObjectMeta k → ObjectRef k
object_ref m = record { name = m.name; uid = m.uid }

abbrev pub raw_object_ref : {k : ObjectKind} → ObjectMeta k → RawObjectRef
raw_object_ref {k} m = record { kind = k; name = m.name; uid = m.uid }

abbrev pub with_update_at : {k : ObjectKind} → Timestamp → ObjectMeta k → ObjectMeta k
with_update_at at m = record m { updated_at = at }

-- `Display` of a reference: `{kind}/{name}`, with no uid.
unfoldable pub display_ref : RawObjectRef → Str
unfolding kind_str as_str
display_ref r = kind_str r.kind ++ b'/' ∷ as_str r.name

pub data RefError : Type 0 where
  invalid_owner_ref : Str → RefError
  invalid_name : NameError → RefError

-- `parts.next()` after the kind: the name, and whether a third part follows.
parse_name_part : Str → ObjectKind → Option (Str × Str) → Str → Result RefError RawObjectRef
parse_name_part s kind more rest =
    let name : Str = elim more [ none ↦ rest | some (n, _) ↦ n ] in
    elim (from_parsed name) [
      | err e ↦ err (invalid_name e)
      | ok n ↦ elim more [
        | none ↦ ok (record { kind = kind; name = n; uid = 0 })
        | some _ ↦ err (invalid_owner_ref s)
      ]
    ]

parse_kind_part : Str → Option (Str × Str) → Result RefError RawObjectRef
unfolding parse_name_part
parse_kind_part s none = err (invalid_owner_ref s)
parse_kind_part s (some (kind, rest)) = elim (parse_kind kind) [
  | none ↦ err (invalid_owner_ref s)
  | some k ↦ parse_name_part s k (split_once b'/' rest) rest
]

-- `RawObjectRef::from_str`: a text with no `/` has a kind that is unknown or a name that is missing,
-- and both are the same error.
unfoldable pub from_str : Str → Result RefError RawObjectRef
unfolding parse_kind_part
from_str s = parse_kind_part s (split_once b'/' s)
