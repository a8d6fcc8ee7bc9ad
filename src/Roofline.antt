-- ===== src/Roofline.antt =====
-- `tools/unitrace/scripts/roofline`: the parts of the roofline of kernels.
pub mod Lines
pub mod Html
pub mod Report
pub mod Run
mod Tests
