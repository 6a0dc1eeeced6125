-- ===== src/Tests.antt =====
-- Concrete data, and the theorems applied to it.
mod Data
mod Client
mod Config
mod Engine
mod Default
mod Sentinel
mod Logger
mod Serve
mod Loading
mod Main
mod Serving
