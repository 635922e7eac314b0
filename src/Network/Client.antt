-- ===== src/Network/Client.antt =====
-- network/AP_Client.h and .cpp: the Archipelago protocol client. It stands in its children; `Json`
-- is what it takes from the JSON library, `State` its object and the outside calls it makes.
pub mod Json
pub mod State
pub mod Text
pub mod Protocol
pub mod DataPackage
pub mod Commands
pub mod Poll
mod Keeps
pub mod Frame
pub mod Reconnect
pub mod Checks
pub mod Joining
pub mod Malformed
pub mod Flushing
pub mod Names
pub mod Received
pub mod Render
pub mod Rendering
pub mod Speech
mod SampleJson
mod Examples
