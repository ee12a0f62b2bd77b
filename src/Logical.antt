-- ===== src/Logical.antt =====
-- internal/source/logical: the loops that apply messages, and the layers of their batches.
pub mod Ordered
pub mod Fan
pub mod Points
