-- ===== src/Tests.antt =====
-- Runs on small inputs, and the theorems at concrete data.
mod Reliable
mod Toy
mod Fakes
mod Executor
mod Backends
mod Failures
mod Packages
mod Main
mod Runs
