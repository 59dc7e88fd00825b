-- ===== src/Types/Meta/RoundTrip.antt =====
-- References survive the erasure to the flat form and the printed form: meta.rs.
use spica.Base.{
  ◌≡◌, refl, ◌↔◌, true, not, some, arith, ℕ_discrete, holds, all, ok, split_once_absent,
  split_once_at,
}
use spica.Machinery.Name.{IsValid, as_str}
use spica.Machinery.Name.RoundTrip.{from_parsed-as_str, as_str_no_slash}
use spica.Types.Meta.{
  ObjectKind, flow, flow_version, execution, thread, activity, task, kind_str, parse_kind,
  RawObjectRef, ObjectRef, as_raw_object_ref, try_from, ThreadOwner, execution_owner,
  activity_owner, thread_owner_ref, decode_thread_owner, display_ref, from_str,
}

pub parse_kind-kind_str : (k : ObjectKind) → parse_kind (kind_str k) ≡ some k
unfolding parse_kind kind_str ℕ_discrete
parse_kind-kind_str flow = refl
parse_kind-kind_str flow_version = refl
parse_kind-kind_str execution = refl
parse_kind-kind_str thread = refl
parse_kind-kind_str activity = refl
parse_kind-kind_str task = refl

-- A typed slot admits exactly the flat references of its kind, and loses nothing of them.
pub try_from_exact :
    (k : ObjectKind) (r : RawObjectRef) (t : ObjectRef k)
    → (try_from k r ≡ ok t) ↔ (as_raw_object_ref t ≡ r)
unfolding try_from
try_from_exact k r t = (λ h. ground arith, λ h. ground arith)

-- A flat reference decodes to a thread's owner exactly when it is that owner's address, so a
-- reference of any kind but an execution or an activity is refused.
pub decode_thread_owner_exact :
    (r : RawObjectRef) (o : ThreadOwner) → (decode_thread_owner r ≡ ok o) ↔ (thread_owner_ref o ≡ r)
unfolding decode_thread_owner
decode_thread_owner_exact r (execution_owner t) = (λ h. ground arith, λ h. ground arith)
decode_thread_owner_exact r (activity_owner t) = (λ h. ground arith, λ h. ground arith)

kind_str_no_slash :
    (k : ObjectKind) → all (λ x. not (holds (ℕ_discrete x b'/'))) (kind_str k) ≡ true
unfolding kind_str ℕ_discrete
kind_str_no_slash flow = refl
kind_str_no_slash flow_version = refl
kind_str_no_slash execution = refl
kind_str_no_slash thread = refl
kind_str_no_slash activity = refl
kind_str_no_slash task = refl

-- Parsing the printed form of a reference with a valid name gives back its kind and name, with the
-- nil id, since the printed form carries none.
pub from_str-display_ref :
    (r : RawObjectRef)
    → IsValid r.name
    → from_str (display_ref r) ≡ ok (record { kind = r.kind; name = r.name; uid = 0 })
unfolding from_str display_ref
from_str-display_ref r h = ground (
  arith,
  split_once_at b'/' (kind_str r.kind) (as_str r.name) (kind_str_no_slash r.kind),
  split_once_absent b'/' (as_str r.name) (as_str_no_slash r.name h),
  parse_kind-kind_str r.kind,
  from_parsed-as_str r.name h,
)
