-- ===== src/Worker.antt =====
-- Disposable workers and their leases: worker_protocol.py and worker_store.py.
mod Protocol
pub mod Store
mod Launch
