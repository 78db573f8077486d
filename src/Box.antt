-- ===== src/Box.antt =====
-- The up-hours scheduler of an OCR box (deploy/box/scheduler/schedule.py).
pub mod Windows
pub mod Parse
pub mod Parsed
pub mod Plan
pub mod Calendar
pub mod Drain
