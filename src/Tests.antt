-- ===== src/Tests.antt =====
-- Runs of the modelled code on concrete inputs, and instances of the theorems.
pub mod GraphTests
pub mod BucketTests
pub mod SnapshotTests
pub mod BuildTests
pub mod KeyTests
pub mod LimitTests
pub mod FeedbackTests
pub mod ResolveTests
pub mod GateTests
pub mod ServiceTests
pub mod UndoTests
pub mod SystemTests
pub mod ToolTests
pub mod CycleTests
pub mod RpcTests
pub mod DiffTests
pub mod AiTests
