-- ===== src/Elements/Keeps/Flow.antt =====
-- A property that the primitive steps keep, through the birth of a flow
-- (crates/engine/src/elements).
use spica.Types.Error.{StorageError}
use spica.Types.Command.{CreateFlow}
use spica.Types.Flow.{Flow, FlowVersion}
use spica.Asl.{StateMachine}
use spica.Elements.Interface.{Engine}
use spica.Elements.Flow.{create_flow, create_unless, expect_version, require_machine}
use spica.Elements.Keeps.{
  Keeps, Kept, keeps_rules, reject-Keeps, event-Keeps, now-Keeps, mint-Keeps,
}
use spica.Elements.Handle.{Work}
use spica.Base.{Option, none, some, Str, Result, ok}

module _ {V S : Type 0} {P : Work V S → Type 0} {engine : Engine V S} (reason : Str)
    (kept : Kept P engine) where
  pub require_machine-Keeps :
      (x : Option (StateMachine V)) → Keeps P (require_machine engine reason x)
  require_machine-Keeps none = search keeps_rules
  require_machine-Keeps (some m) = search keeps_rules

  pub expect_version-Keeps : (x : Option FlowVersion) → Keeps P (expect_version engine reason x)
  expect_version-Keeps none = search keeps_rules
  expect_version-Keeps (some v) = search keeps_rules

  pub create_unless-Keeps :
      (x : CreateFlow) (y : Result StorageError (Option Flow))
      → Keeps P (create_unless engine reason x y)
  create_unless-Keeps p (ok (some f)) = search (keeps_rules, reject-Keeps) depth 12
  create_unless-Keeps p _ =
      search (keeps_rules, event-Keeps, now-Keeps, mint-Keeps, expect_version-Keeps) depth 12

  pub create_flow-Keeps : (x : CreateFlow) → Keeps P (create_flow engine reason x)
  unfolding create_flow
  create_flow-Keeps p = search (keeps_rules, create_unless-Keeps, require_machine-Keeps) depth 12
