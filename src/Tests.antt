-- ===== src/Tests.antt =====
-- Concrete requests, files and peers, and the theorems on them.
pub mod Peers
pub mod Writer
pub mod Common
pub mod Service
pub mod Server
pub mod Sent
pub mod Apps
pub mod Watch
pub mod Library
