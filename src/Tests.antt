-- ===== src/Tests.antt =====
-- Runs at concrete inputs, and each result at an input that meets its conditions.
mod MigrationTest
mod LifecycleTest
mod PolicyTest
mod CompilerTest
mod RuntimeTest
mod Samples
mod Workspace
mod HeadsTest
mod DecisionsTest
mod ContextTest
mod ValuesTest
