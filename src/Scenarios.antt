-- ===== src/Scenarios.antt =====
-- Concrete pods, volumes, requests and stores, on which the definitions and the theorems are run.
mod Fixture
mod Paths
mod Requests
mod Storage
mod Reconciles
mod Mounts
mod Machine
mod Threads
mod Json
mod Socket
mod Run
