-- ===== src/Common.antt =====
-- vegafusion-common: what the other crates share.
pub mod Escape
