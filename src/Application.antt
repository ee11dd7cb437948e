-- ===== src/Application.antt =====
-- internal/application: the use cases, each over the ports that it is built from.
pub mod CreateRoom
pub mod JoinRoom
pub mod ListMessages
pub mod SendMessage
pub mod SyncMessages
pub mod Push
pub mod RoomId
