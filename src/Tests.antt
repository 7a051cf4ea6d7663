-- ===== src/Tests.antt =====
-- The theorems at concrete inputs, one module for each part of the program.
mod Queue
mod Table
mod Batches
mod Numbers
mod Files
mod Logs
mod Reference
mod Stored
mod Builds
mod Notes
mod Pushes
