-- ===== src/Leader/Invariants.antt =====
-- What the dispatch of a command by the leader of crates/engine/src/leader.rs keeps, whatever the
-- command and whether it is refused or not.
use spica.Base.{◌≡◌, ap, some, List, [], ◌∷◌, ◌++◌, Str}
use spica.Types.Command.{Command}
use spica.LogStream.{EntryId, Entry}
use spica.StreamProcessor.{EntryPayload, command, reject}
use spica.Elements.Interface.{Engine}
use spica.Elements.Context.{remember}
use spica.Elements.Handle.{Work, now, mint, next_generated_seq, push, append_event}
use spica.Elements.Dispatch.{dispatch_command}
use spica.Elements.Keeps.{Keeps, Kept}
use spica.Elements.Keeps.Dispatch.{dispatch_command-Keeps}

-- Every entry of a list names this one as its cause.
pub data AllCausedBy {V : Type 0} (id : EntryId) : List (Entry (EntryPayload V)) → Type 0 where
  none_yet : AllCausedBy id []
  caused :
      {e : Entry (EntryPayload V)} {es : List (Entry (EntryPayload V))}
      → e.cause_id ≡ some id
      → AllCausedBy id es
      → AllCausedBy id (e ∷ es)

-- The collector answers this entry, and so do its entries.
abbrev pub Answers : {V S : Type 0} → EntryId → Work V S → Type 0
Answers id w = (w.cause_id ≡ id) × AllCausedBy id w.entries

module _ {V : Type 0} where
  caused-append :
      (id : EntryId) (es : List (Entry (EntryPayload V))) (e : Entry (EntryPayload V))
      → AllCausedBy id es
      → e.cause_id ≡ some id
      → AllCausedBy id (es ++ e ∷ [])
  caused-append id [] e none_yet k = caused k none_yet
  caused-append id (x ∷ es) e (caused h hs) k = caused h (caused-append id es e hs k)

module _ {V S : Type 0} (id : EntryId) (engine : Engine V S) where
  pushed_answer : (p : EntryPayload V) → Keeps (Answers id) (push engine p)
  unfolding push
  pushed_answer p = record { at = λ w (h, hs). (h, caused-append id w.entries _ hs (ap some h)) }

  Answers-Kept : Kept (Answers id) engine
  unfolding now mint next_generated_seq remember append_event push
  Answers-Kept = record {
    event = λ e. record { at = λ w (h, hs). (h, caused-append id w.entries _ hs (ap some h)) };
    command = λ c. pushed_answer (command c);
    refusal = λ r. pushed_answer (reject r);
    reading = record { at = λ w h. h };
    id = record { at = λ w h. h };
    seq = record { at = λ w h. h };
    definition = λ r m. record { at = λ w h. h };
  }

  -- From a collector that answers an entry, and whose entries all name it as their cause,
  -- dispatching any command, whether it succeeds, is refused or fails, leaves a collector that still
  -- answers that entry, and whose entries, the new ones included, all name it as their cause.
  pub dispatch_command-Answers :
      (reason : Str) (c : Command V) (w : Work V S)
      → Answers id w
      → Answers id (dispatch_command engine reason c w).1
  dispatch_command-Answers reason c w h = (dispatch_command-Keeps reason Answers-Kept c).at w h
