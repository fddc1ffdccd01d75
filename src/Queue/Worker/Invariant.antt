-- ===== src/Queue/Worker/Invariant.antt =====
-- The invariant of the queue under any interleaving of clients and workers.
use device_management.Queue.Worker.Kept.{Tables}
use device_management.Queue.Rows.{Matches}
use device_management.Queue.Worker.{World}
use device_management.Prelude.{String, Each, nat_eq, string_eq, pair_eq}

pub record Inv (s : World) : Type 0 where
  pub tables : Tables s.db.jobs
  pub matches : (w : String) → Each (Matches s.db.jobs w) (s.held w)
