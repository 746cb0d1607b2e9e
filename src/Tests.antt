-- ===== src/Tests.antt =====
-- The theorems at concrete inputs.
mod Policies
mod Trackers
mod Traces
mod Memories
mod Codegens
mod Layouts
mod Generators
