-- ===== src/Companion.antt =====
-- firmware/companion-app/main.cpp: the application that installs and watches the core, and, as the
-- launcher, starts a title for it.
pub mod World
pub mod Log
pub mod Launcher
pub mod Transfer
pub mod Release
pub mod Repair
pub mod Bridge
pub mod Terminal
pub mod Screen
pub mod Loop
pub mod Start
