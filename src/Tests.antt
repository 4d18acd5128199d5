-- ===== src/Tests.antt =====
-- Runs of the models at small inputs, and the instances of the theorems.
mod Scheduling
mod Acts
mod Caches
mod Interactions
mod Documents
mod Models
mod Tabs
mod Ids
mod Utilities
