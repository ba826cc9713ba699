-- ===== src/GraphTools.antt =====
-- Tools over the graph index (backend/app/mcp/tools/graph_read_tools.py).
pub mod Risk
pub mod Path
pub mod Content
pub mod Levels
pub mod Search
pub mod Batch
pub mod Cycles
