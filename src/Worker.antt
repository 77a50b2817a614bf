-- ===== src/Worker.antt =====
-- apps/worker/src: the jobs that the worker runs beside the dispatcher, and its loop.
pub mod Decay
pub mod Schedule
pub mod Loop
