-- ===== src/Tests.antt =====
-- A small volume, and the theorems at it.
mod Sample
mod Cache
mod Files
mod Lines
mod Pool
mod Tables
mod Sheet
mod Window
mod Checks
