-- ===== src/Tests.antt =====
-- Concrete inputs on which the theorems apply.
mod Samples
mod Sites
mod Administering
mod Demonstrating
mod Storing
mod Serving
mod Deploying
mod Running
mod Reporting
mod Connecting
