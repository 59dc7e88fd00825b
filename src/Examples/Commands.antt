-- ===== src/Examples/Commands.antt =====
-- The dispatch of commands over the in-memory transaction, on sample rows. Every value of JSON is a
-- number, and every expression gives its input.
use spica.Types.Meta.{object_ref}
use spica.Types.Activity.{MapActivityState}
use spica.Examples.Data.{charge_task, order_thread}
use spica.Base.{
  ℕ, ◌+◌, ◌≤◌, ◌≡◌, refl, true, false, none, some, [], ◌∷◌, ℕ_discrete, Str, codes, Str-discrete,
  ok, err, pos,
}
use spica.Types.Task.{Task, running, is_claimable_at, claim}
use spica.Types.Error.{infra, log}
use spica.Types.Command.{Command, FailTask}
use spica.Storage.Memory.{InMemoryTxn}
use spica.Storage.Memory.Txn.{memory_ops}
use spica.Storage.Memory.Reads.{get_children, activatable_tasks}
use spica.Storage.Memory.Refines.{view_txn}
use spica.Elements.Interface.{ReadonlyStorageTxn, Json, Engine}
use spica.Elements.Handle.{ProcessingError, Work, ◌>>=◌, now, some_or_refuse, read, append_event}
use spica.Machinery.Timestamp.{checked_add}
use spica.Applier
use spica.Applier.Task
use spica.Applier.Rows.{rows}
use spica.HashMap.{get, insert}
use spica.Machinery.Name.{ObjectName-discrete, PlainName-discrete}
use spica.Storage.Fold
use spica.StreamProcessor.Replay.{replay}
use spica.Elements.Dispatch.{dispatch_command}
use spica.Leader.{Leader, CommandProcessed, process_command, attempts, dispatch_once}
use spica.Elements.Task.{claim_tasks}
use spica.Leader.Attempts.{Failed, Decides, process_command-outcome}
use spica.Leader.Processed.{process_command-replayed}
use spica.Leader.Invariants.{Answers, none_yet, dispatch_command-Answers}
use spica.Examples.Store.{one_task}
use spica.Examples.Domain.{whole}

abbrev numbers : Json ℕ
numbers = record {
  null = 0;
  number = λ n. n;
  string = λ s. 0;
  array = λ vs. 0;
  object = λ m. 0;
  is_null = λ v. false;
  as_bool = λ v. none;
  as_whole = λ v. some (pos v);
  as_str = λ v. none;
  as_array = λ v. none;
  as_object = λ v. none;
}

abbrev reads : ReadonlyStorageTxn ℕ (InMemoryTxn ℕ)
reads = record {
  get_execution = λ r s. ok ((view_txn s).executions r.name);
  get_thread = λ r s. ok ((view_txn s).threads r.name);
  get_variables = λ r s. ok ((view_txn s).variables r.name);
  get_activity = λ r s. ok ((view_txn s).activities r.name);
  get_task = λ r s. ok ((view_txn s).tasks r.name);
  get_children = λ r s. ok (get_children r s);
  activatable_tasks = λ resource now n s. ok (activatable_tasks resource now n s);
  get_flow_by_name = λ n s. ok ((view_txn s).flows n);
  get_flow_version = λ r s. ok ((view_txn s).flow_versions r.name);
}

abbrev pub engine : Engine ℕ (InMemoryTxn ℕ)
engine = record {
  txn = memory_ops;
  storage = reads;
  clock = λ n. 1000 + n;
  ids = λ n. 500 + n;
  debug_assertions = true;
  json = numbers;
  eval_expr = λ text input variables. ok input;
  eval_json = λ value input variables. ok value;
  trim = λ s. s;
  from_rfc3339 = λ s. none;
  parse_machine = λ s. none;
  checksum = λ s. 0;
  floats = whole;
  default_backoff_rate = 2;
}

abbrev claim_one : Command ℕ
claim_one = Command.claim_tasks (record {
  request_id = 7;
  worker_id = codes "worker";
  resource = codes "payments";
  max_tasks = 1;
  lease_seconds = 30;
})

abbrev no_text : ProcessingError ℕ → Str
no_text e = codes "refused"

abbrev fresh_leader : Leader ℕ
fresh_leader = record {
  definitions = [];
  watermark = pos 0;
  last_applied = [];
  readings = 0;
  minted = 0;
}

abbrev work : Work ℕ (InMemoryTxn ℕ)
work = record {
  store = one_task;
  cause_id = pos 9;
  entries = [];
  readings = 0;
  minted = 0;
  definitions = [];
}

dispatch_command-Answers_example : Answers (pos 9) (dispatch_command engine [] claim_one work).1
dispatch_command-Answers_example =
    dispatch_command-Answers (pos 9) engine [] claim_one work (refl, none_yet)

abbrev claimed : CommandProcessed ℕ (InMemoryTxn ℕ)
claimed =
    elim (process_command engine (dispatch_command engine []) (ok one_task) no_text (pos 9)
      claim_one fresh_leader).0 [ ok p ↦ p | err e ↦ record { entries = []; work = one_task } ]

claimed-ok :
    (process_command engine
      (dispatch_command engine [])
      (ok one_task)
      no_text
      (pos 9)
      claim_one
      fresh_leader).0
    ≡ ok claimed
unfolding process_command attempts dispatch_once dispatch_command claim_tasks ◌>>=◌ now
    some_or_refuse checked_add read append_event Applier.dispatch_event Task.tasks_claimed
    activatable_tasks is_claimable_at Fold.pure Str-discrete ℕ_discrete claim Task.fold_claim
    Fold.when_some get insert ObjectName-discrete PlainName-discrete Fold.◌>>=◌
claimed-ok = refl

claimed-replayed : (replay claimed.entries (view_txn one_task)).0 ≡ ok tt
unfolding process_command attempts dispatch_once dispatch_command claim_tasks ◌>>=◌ now
    some_or_refuse checked_add read append_event Applier.dispatch_event Task.tasks_claimed
    activatable_tasks is_claimable_at Fold.pure Str-discrete ℕ_discrete claim Task.fold_claim
    Fold.when_some get insert ObjectName-discrete PlainName-discrete replay Fold.◌>>=◌
claimed-replayed = refl

process_command-replayed_example :
    rows (view_txn claimed.work) ≡ rows (replay claimed.entries (view_txn one_task)).1
process_command-replayed_example =
    process_command-replayed engine refl [] no_text one_task (pos 9) claim_one fresh_leader claimed
      claimed-ok claimed-replayed

process_command-outcome_example :
    (k : ℕ) × (l' : Leader ℕ) × (k ≤ 2)
    × Failed engine
        (dispatch_command engine [])
        (ok one_task)
        no_text
        (pos 9)
        claim_one
        k
        fresh_leader
        l'
    × Decides engine
        (dispatch_command engine [])
        (ok one_task)
        no_text
        (pos 9)
        claim_one
        (k ≡ 2)
        l'
        (process_command engine
          (dispatch_command engine [])
          (ok one_task)
          no_text
          (pos 9)
          claim_one
          fresh_leader)
process_command-outcome_example =
    process_command-outcome engine (dispatch_command engine []) (ok one_task) no_text (pos 9)
      claim_one one_task refl fresh_leader

-- A `Map` over five items, at most three at once: three are registered and one of them is done.
abbrev fan : MapActivityState ℕ
fan = record {
  items = 4 ∷ 5 ∷ 6 ∷ 7 ∷ 8 ∷ [];
  total = 5;
  max_concurrency = 3;
  children =
      (0, object_ref order_thread.meta)
      ∷ (1, object_ref order_thread.meta)
      ∷ (2, object_ref order_thread.meta)
      ∷ [];
}

-- The charge, claimed, in a transaction of its own.
abbrev leased_charge : Task ℕ
leased_charge = record charge_task {
  status = running;
  worker_id = some (codes "ann");
  lease_expires_at = some 2000;
}

abbrev leased_work : Work ℕ (InMemoryTxn ℕ)
leased_work = record work {
  store = record one_task {
    batch = record one_task.batch { tasks = (charge_task.meta.name, leased_charge) ∷ [] };
  };
}

abbrev report : FailTask ℕ
report = record {
  worker_id = codes "ann";
  task = object_ref charge_task.meta;
  error = infra (log (codes "down"));
}
