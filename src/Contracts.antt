-- ===== src/Contracts.antt =====
-- The domain contracts of libs/contracts/models.py and the messages that libs/events/bus.py
-- carries between the services.
mod Enums
mod Models
mod Messages
pub use Enums.*
pub use Models.*
pub use Messages.*
