-- ===== src/Bot.antt =====
-- The Telegram bot (client/bot/): what it shows and what its buttons remember.
pub mod View
pub mod Page
pub mod Due
pub mod Config
pub mod Registry
pub mod Text
pub mod Render
pub mod Find
pub mod Effect
pub mod Client
pub mod Sender
pub mod Parse
pub mod Handlers
pub mod Settings
pub mod Dispatch
pub mod Permits
mod Tests
mod RegistryTests
mod SettingsTests
mod HandlerTests
mod DispatchTests
