-- ===== src/Poller.antt =====
-- The poller's decisions (app/workers/poller/steps.py and types.py).
pub mod Plan
pub mod Timing
pub mod Window
pub mod Check
pub mod Rows
pub mod Harvest
pub mod Settle
pub mod Reports
pub mod Pass
pub mod Tracked
pub mod Safe
pub mod Run
