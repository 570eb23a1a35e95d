-- ===== src/Examples.antt =====
-- The tests of the parts, at the states of Fixtures.
pub mod Receiving
pub mod Running
pub mod Launching
pub mod Calling
pub mod Configuring
pub mod Logging
pub mod Starting
pub mod Controlling
pub mod Watching
pub mod Serving
