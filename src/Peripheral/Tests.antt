-- ===== src/Peripheral/Tests.antt =====
-- A concrete delivery.
use moergo_rmk.Replica.Snapshot.{Snapshot}
use moergo_rmk.Replica.Replicates.{Replicates}
