-- ===== src/Worker/Launch.antt =====
-- worker_runtime.py: what starts a worker process, behind the guarded claim.
mod Gate
mod Retries
mod Start
mod Failed
mod Tests
