-- ===== src/Cdc.antt =====
-- internal/source/cdc: changefeeds, whose resolved timestamps drive what is applied.
pub mod Stamps
pub mod Resolver
pub mod Retire
pub mod Marks
