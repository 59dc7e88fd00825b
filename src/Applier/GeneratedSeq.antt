-- ===== src/Applier/GeneratedSeq.antt =====
-- `bump_generated_seq` of crates/engine/src/applier/appliers/mod.rs.
use spica.Base.{ℕ, max_ℤ, as_i64, succ_i64}
use spica.Machinery.Name.{ObjectName, suffix}
use spica.Storage.Fold.{Fold, when_some, ◌>>=◌}
use spica.Storage.Contract.{StorageTxn}

module _ {V S : Type 0} (storage : StorageTxn V S) where
  open storage use {next_generated_seq, put_next_generated_seq}

  abbrev pub raise_seq : ℕ → Fold S Unit
  raise_seq n = do
    current ← next_generated_seq
    put_next_generated_seq (max_ℤ current (succ_i64 (as_i64 n)))

  unfoldable pub bump_generated_seq : ObjectName → Fold S Unit
  bump_generated_seq name = when_some (suffix name) raise_seq
