-- ===== src/Tests.antt =====
-- Runs on concrete services, and the laws at concrete inputs.
mod Services
mod Polling
mod Following
mod Registering
mod Storing
mod Tweeting
mod Working
mod Serving
mod Keys
mod Sending
mod Routing
mod Tables
mod Broker
mod Starting
mod Receiving
mod Building
mod Mixing
mod Tracing
mod Repeating
mod Pipeline
