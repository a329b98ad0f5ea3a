-- ===== src/Net.antt =====
-- Network.
pub mod Frame
pub mod Reader
