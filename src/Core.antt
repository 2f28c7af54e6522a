-- ===== src/Core.antt =====
-- The crate desktop/core: the events of the program, its configuration, its services and the object
-- that holds them.
pub mod Events
pub mod EventBus
pub mod Settings
pub mod Config
pub mod Context
pub mod Services
pub mod Database
pub mod App
