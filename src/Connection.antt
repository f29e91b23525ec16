-- ===== src/Connection.antt =====
-- Where the parts meet: a session as the connection of the client, and `Connect` and `get` of
-- src/milecsa_jsonrpc.cpp and src/milcesa_http.cpp.
pub mod Transport
pub mod Client
pub mod Calls
pub mod Barred
pub mod BlockId
pub mod Clients
pub mod Defined
pub mod Messages
pub mod Answers
pub mod Reached
