-- ===== src/Wire.antt =====
-- src/connectors/wire/WireProtocol.cpp and WireProtocolCommands.cpp with their headers, and
-- `processStream` of WireServer.cpp: requests are lines of JSON, and each has one response.
pub mod Json
pub mod Decoder
pub mod Encoder
pub mod Handler
pub mod Answers
pub mod Requests
pub mod Server
pub mod Invocation
pub mod Session
pub mod Simulation
pub mod Plain
pub mod Responses
pub mod Tests
