-- ===== src/Examples.antt =====
-- Runs of the code on concrete data, and the theorems applied to them.
mod Data
mod Core
mod Store
mod Review
mod Web
mod Notebook
mod Adapters
mod Migrate
mod Prometheus
mod Export
mod Blob
mod Password
mod Notify
