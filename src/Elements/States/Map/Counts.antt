-- ===== src/Elements/States/Map/Counts.antt =====
-- How many items a `Map` starts (crates/engine/src/elements/states/map.rs).
use spica.Asl.{ItemProcessor, no_processor, processor}
use spica.Base.{ℕ, zero, suc, ◌+◌, ◌-◌, ◌%◌, ◌^◌, min, List, [], ◌∷◌, Str}

abbrev pub usize_mod : ℕ
usize_mod = 2 ^ 64

-- `a - b` on `usize`, in a release build.
abbrev pub sub_usize : ℕ → ℕ → ℕ
sub_usize a b = (a + usize_mod - b) % usize_mod

-- `lo..lo + n`.
unfoldable pub range_from : ℕ → ℕ → List ℕ
range_from lo zero = []
range_from lo (suc n) = lo ∷ range_from (lo + 1) n

-- The slots of a state, all of them when there is no limit.
abbrev pub capacity_of : (max_concurrency total : ℕ) → ℕ
capacity_of zero total = total
capacity_of (suc n) total = suc n

-- How many items a settle starts: the free slots, but no more than the items not started.
unfoldable pub to_spawn : (max_concurrency total spawn_count completed_now : ℕ) → ℕ
to_spawn max_concurrency total spawn_count completed_now =
    min (capacity_of max_concurrency total - sub_usize spawn_count completed_now)
      (sub_usize total spawn_count)

unfoldable pub initial_batch : (max_concurrency total : ℕ) → ℕ
initial_batch max_concurrency total = min (capacity_of max_concurrency total) total

unfoldable pub start_of : {V : Type 0} → ItemProcessor V → Str
start_of no_processor = []
start_of (processor start_at below) = start_at
