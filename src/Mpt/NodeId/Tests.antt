-- ===== src/Mpt/NodeId/Tests.antt =====
-- The theorems on database/mpt/node_id.go at small identifiers.
use carmen.Prelude.{◌≡◌}
use carmen.Mpt.NodeId.{load, store}
use carmen.Mpt.NodeId.Kinds.{load-store}

load-store_example : load 0 (store 70000) ≡ 70000
load-store_example = load-store 70000
