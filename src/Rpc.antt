-- ===== src/Rpc.antt =====
-- src/milecsa_jsonrpc.cpp, src/milecsa_jsonrpc_call.cpp, include/milecsa_rpc_id.hpp and the class
-- `RpcSession`: the JSON-RPC client.
pub mod Env
pub mod World
pub mod Request
pub mod Client
pub mod Transaction
pub mod Ends
pub mod Call
