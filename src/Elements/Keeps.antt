-- ===== src/Elements/Keeps.antt =====
-- Properties of the working state that each primitive step of the handlers of crates/engine/src keeps,
-- and the rules that carry them through what is built from those steps.
pub mod Context
pub mod Settle
pub mod Expression
pub mod StateHandler
pub mod Finish
pub mod Simple
pub mod Choice
pub mod Container
pub mod Parallel
pub mod Map
pub mod TaskState
pub mod Activity
pub mod Thread
pub mod Execution
pub mod Task
pub mod Flow
pub mod Dispatch
use spica.Types.Event.{Event}
use spica.Types.Command.{Command}
use spica.Types.Meta.{ObjectRef, flow_version}
use spica.Types.Error.{StorageError, RejectionType, RequestId, Reject}
use spica.Asl.{StateMachine}
use spica.StreamProcessor
use spica.Elements.Interface.{Engine}
use spica.Elements.Handle.{
  Handle, Work, Stop, pure, stop, continue, read, try_read, some_or_refuse, for_each, match_option,
  match_result, now, mint, next_generated_seq, push, append_command, append_event, reject, ◌>>=◌,
  ◌>>◌,
}
use spica.Elements.Context.{remember, cached}
use spica.Base.{
  ite, Bool, true, false, Option, none, some, List, [], ◌∷◌, if◌then◌else◌, Str, Result, ok, err,
}

module _ {V S : Type 0} (P : Work V S → Type 0) where
  pub record Keeps {A : Type 0} (m : Handle V S A) : Type 0 where
    pub at : (w : Work V S) → P w → P (m w).1

  -- The primitive steps.
  pub record Kept (engine : Engine V S) : Type 0 where
    pub event : (e : Event V) → Keeps (append_event engine e)
    pub command : (c : Command V) → Keeps (push engine (StreamProcessor.command c))
    pub refusal : (r : Reject) → Keeps (push engine (StreamProcessor.reject r))
    pub reading : Keeps (now engine)
    pub id : Keeps (mint engine)
    pub seq : Keeps (next_generated_seq engine)
    pub definition : (r : ObjectRef flow_version) (m : StateMachine V) → Keeps (remember engine r m)

module _ {V S : Type 0} {P : Work V S → Type 0} where
  pub Keeps-pure : {A : Type 0} (a : A) → Keeps P (pure a)
  unfolding pure
  Keeps-pure a = record { at = λ w h. h }

  pub Keeps-stop : {A : Type 0} (e : Stop V) → Keeps P (stop {A = A} e)
  unfolding stop
  Keeps-stop e = record { at = λ w h. h }

  Keeps-continue :
      {A B : Type 0} (r : Result (Stop V) A) (f : A → Handle V S B) (w : Work V S)
      → ((a : A) → Keeps P (f a))
      → P w
      → P (continue r f w).1
  Keeps-continue (ok a) f w h p = (h a).at w p
  Keeps-continue (err e) f w h p = p

  pub Keeps-bind :
      {A B : Type 0} (m : Handle V S A) (f : A → Handle V S B)
      → Keeps P m
      → ((a : A) → Keeps P (f a))
      → Keeps P (m >>= f)
  unfolding ◌>>=◌
  Keeps-bind m f hm hf = record { at = λ w p. Keeps-continue (m w).0 f (m w).1 hf (hm.at w p) }

  pub Keeps-read : {A : Type 0} (r : S → Result StorageError A) → Keeps P (read r)
  unfolding read
  Keeps-read r = record { at = λ w h. h }

  pub Keeps-try_read : {A : Type 0} (r : S → Result StorageError A) → Keeps P (try_read r)
  unfolding try_read
  Keeps-try_read r = record { at = λ w h. h }

  pub Keeps-some_or_refuse :
      {A : Type 0} (t : RejectionType) (o : Option A) → Keeps P (some_or_refuse t o)
  unfolding some_or_refuse
  Keeps-some_or_refuse t none = Keeps-stop _
  Keeps-some_or_refuse t (some a) = Keeps-pure a

  pub Keeps-for_each :
      {A : Type 0} (f : A → Handle V S Unit) (xs : List A)
      → ((a : A) → Keeps P (f a))
      → Keeps P (for_each f xs)
  unfolding for_each
  Keeps-for_each f [] h = Keeps-pure tt
  Keeps-for_each f (x ∷ xs) h = Keeps-bind (f x) _ (h x) (λ u. Keeps-for_each f xs h)

  pub Keeps-if :
      {A : Type 0} (b : Bool) (m n : Handle V S A)
      → Keeps P m
      → Keeps P n
      → Keeps P (if b then m else n)
  Keeps-if true m n hm hn = hm
  Keeps-if false m n hm hn = hn

  pub Keeps-ite :
      {A X : Type 0} (d : Dec X) (m n : Handle V S A) → Keeps P m → Keeps P n → Keeps P (ite d m n)
  Keeps-ite (yes x) m n hm hn = hm
  Keeps-ite (no x) m n hm hn = hn

  pub Keeps-option :
      {A B : Type 0} (o : Option A) (m : Handle V S B) (f : A → Handle V S B)
      → Keeps P m
      → ((a : A) → Keeps P (f a))
      → Keeps P (match_option o m f)
  Keeps-option none m f hm hf = hm
  Keeps-option (some a) m f hm hf = hf a

  pub Keeps-result :
      {E A B : Type 0} (r : Result E A) (g : E → Handle V S B) (f : A → Handle V S B)
      → ((e : E) → Keeps P (g e))
      → ((a : A) → Keeps P (f a))
      → Keeps P (match_result r g f)
  Keeps-result (ok a) g f hg hf = hf a
  Keeps-result (err e) g f hg hf = hg e

  pub Keeps-cached : (engine : Engine V S) (r : ObjectRef flow_version) → Keeps P (cached engine r)
  unfolding cached
  Keeps-cached engine r = record { at = λ w h. h }

module _ {V S : Type 0} {P : Work V S → Type 0} {engine : Engine V S} (kept : Kept P engine) where
  pub event-Keeps : (e : Event V) → Keeps P (append_event engine e)
  event-Keeps e = kept.event e

  pub now-Keeps : Keeps P (now engine)
  now-Keeps = kept.reading

  pub mint-Keeps : Keeps P (mint engine)
  mint-Keeps = kept.id

  pub seq-Keeps : Keeps P (next_generated_seq engine)
  seq-Keeps = kept.seq

  pub append_command-Keeps : (c : Command V) → Keeps P (append_command engine c)
  unfolding append_command
  append_command-Keeps c = kept.command c

  pub reject-Keeps :
      (q : RequestId) (t : RejectionType) (reason : Str) → Keeps P (reject engine q t reason)
  unfolding reject
  reject-Keeps q t reason = kept.refusal _

pub ruleset keeps_rules = (
  Keeps-pure, Keeps-stop, Keeps-bind, Keeps-read, Keeps-try_read, Keeps-some_or_refuse,
  Keeps-for_each, Keeps-if, Keeps-ite, Keeps-option, Keeps-result, Keeps-cached,
)
