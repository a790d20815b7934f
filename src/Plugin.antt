-- ===== src/Plugin.antt =====
-- internal/plugin/runtime.go: the RPC runtime. `Request` has the gate of the refresh route, `Runtime` the
-- dispatcher with the engine that it owns.
pub mod Request
pub mod Wire
pub mod Tokens
pub mod Runtime
pub mod Refresh
pub mod Terminal
