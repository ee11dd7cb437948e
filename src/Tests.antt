-- ===== src/Tests.antt =====
-- Runs at concrete inputs, over an in-memory world.
pub mod World
mod Application
mod RoomId
mod RateLimit
mod Hub
mod Relay
pub mod Adapters
pub mod Auth
mod Http
mod Health
mod Migrations
mod System
pub mod Valkey
mod Telemetry
mod Config
mod Pump
mod Drain
mod Server
mod Connection
mod Connect
mod RequestLog
mod Subscription
mod Later
mod Sampling
