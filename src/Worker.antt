-- ===== src/Worker.antt =====
-- kqueue_parent.py: the worker process that starts and reaps the containers.
pub mod Buffer
pub mod Calls
pub mod Jails
mod Tests
