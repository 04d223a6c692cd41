-- ===== src/Core.antt =====
-- firmware/core/main.cpp: the HTTP service. `World` has the state of the process and the calls that
-- leave it; the other modules have the functions of the file in the order of their use.
pub mod World
pub mod Net
pub mod Album
pub mod Launch
pub mod Command
pub mod Control
pub mod Reports
pub mod Info
pub mod Screenshot
pub mod Button
pub mod Request
pub mod Effects
pub mod Auth
pub mod Waits
pub mod Copy
pub mod Handoff
pub mod Stream
pub mod Passive
pub mod Quiet
pub mod Mdns
pub mod Override
pub mod Sized
pub mod Server
pub mod Boot
