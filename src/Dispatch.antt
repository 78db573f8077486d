-- ===== src/Dispatch.antt =====
-- Which backend each pending job goes to (app/workers/submit/steps.py and types.py).
pub mod Number
pub mod Types
pub mod Allocate
pub mod Choice
pub mod Capacity
