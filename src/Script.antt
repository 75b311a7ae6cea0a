-- ===== src/Script.antt =====
-- src/script.c: the packets of a Lua script, and the calls of its functions.
pub mod Lua
pub mod Fields
pub mod Objects
pub mod Calls
pub mod Load
