-- ===== src/Examples/Data.antt =====
-- Sample rows, events and a log, with numbers for the JSON values.
use spica.Base.{ℕ, ◌+◌, none, [], ◌∷◌, codes, pos}
use spica.Machinery.Name.{PlainName, ObjectName, generated_from_key}
use spica.Types.Meta.{
  ObjectKind, ObjectMeta, ObjectRef, OwnedBy, no_owner, execution_owner, object_ref, RawObjectRef,
  raw_object_ref,
}
use spica.Types.Meta
use spica.Types.Flow.{default_scope}
use spica.Types.Execution.{Execution}
use spica.Types.Execution
use spica.Types.Thread.{Thread}
use spica.Types.Thread
use spica.Types.Activity.{Activity}
use spica.Types.Activity
use spica.Types.Task.{Task, no_retries, pending}
use spica.Types.Event.{Event}
use spica.LogStream.{Entry, LogStream}
use spica.StreamProcessor.{EntryPayload}
use spica.StreamProcessor

abbrev pub order_base : PlainName
order_base = record { text = codes "order" }

abbrev pub name_of : ℕ → ObjectName
name_of n = generated_from_key order_base n

abbrev pub meta_of : (k : ObjectKind) → OwnedBy k → ℕ → ObjectMeta k
meta_of k owner n = record {
  tenant = default_scope;
  namespace = default_scope;
  name = name_of n;
  uid = n;
  created_at = 10;
  updated_at = 10;
  owner = owner;
}

abbrev pub order_run : Execution ℕ
order_run = record {
  meta = meta_of Meta.execution no_owner 1;
  flow_version = record { name = name_of 9; uid = 9 };
  status = Execution.running;
  deadline = none;
  input = 5;
  output = none;
}

abbrev pub order_thread : Thread ℕ
order_thread = record {
  meta = meta_of Meta.thread (execution_owner (object_ref order_run.meta)) 2;
  execution = object_ref order_run.meta;
  state_path = codes "States" ∷ [];
  start_at = codes "Charge";
  index = 0;
  status = Thread.running;
  input = 5;
  output = none;
}

abbrev pub charge : Activity ℕ
charge = record {
  meta = meta_of Meta.activity (object_ref order_thread.meta) 3;
  execution = object_ref order_run.meta;
  state_path = codes "States" ∷ codes "Charge" ∷ [];
  status = Activity.running;
  raw_input = 5;
  input = none;
  raw_output = none;
  activity_state = none;
  retry_state = none;
  output = none;
}

abbrev pub charge_task : Task ℕ
charge_task = record {
  meta = meta_of Meta.task (object_ref charge.meta) 4;
  execution = object_ref order_run.meta;
  resource = codes "payments";
  arguments = 5;
  status = pending;
  deadline = none;
  worker_id = none;
  lease_expires_at = none;
  retry_plan = [];
  retry_state = no_retries;
}

abbrev pub entry_at : ℕ → EntryPayload ℕ → Entry (EntryPayload ℕ)
entry_at n p = record {
  stream_id = pos 1;
  entry_id = pos n;
  cause_id = none;
  timestamp = 10 + n;
  payload = p;
}

-- Two batches, each closed by its `Noop`.
abbrev pub order_log : LogStream (EntryPayload ℕ)
order_log = record {
  entries =
      entry_at 1 (StreamProcessor.event (Event.execution_created 7 order_run))
      ∷ entry_at 2 (StreamProcessor.event (Event.thread_created order_thread))
      ∷ entry_at 3 StreamProcessor.noop
      ∷ entry_at 4 (StreamProcessor.event (Event.state_activating charge))
      ∷ entry_at 5 (StreamProcessor.event (Event.task_activated charge_task))
      ∷ entry_at 6 StreamProcessor.noop
      ∷ [];
  next_entry_id = pos 7;
}
