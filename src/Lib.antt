-- ===== src/Lib.antt =====
-- The MILE JSON-RPC client (C++): urls, a connection with a deadline, JSON-RPC requests, the commands
-- of the blockchain node, and the command line programs.
--
-- The parts and how they interact. A program of mile_cli_wallet/ gives `rpc::Client` a url; the client
-- parses it, makes a session for its host and connects it; `Client::call` runs the method of a name,
-- which makes commands with fresh ids and sends them through `RpcSession::request`; every error goes
-- to an error handler, from which the programs try again.
--
-- - Base, Base/Lists, Base/Int, Base/Tests: Boolean tests, lists measured by native numbers, texts as
--   lists of bytes, integers.
-- - Effects: exceptions, undefined behaviour, calls that never return, and the steps of stateful code.
-- - Regex: Perl regular expressions with backtracking and captures, as boost::regex documents them.
-- - Url (src/milecsa_url.cpp, include/milecsa_url.hpp): Url/Pattern is the expression of `Url::Parse`,
--   Url/Number is `std::stoi` of base 0, Url/Parse is the class and `Parse`, and Url/Scan is a linear
--   scan that describes the expression independently.
-- - Session (src/milecsa_rpc_session.cpp, include/milecsa_rpc_session.hpp): `http::Session`, its two
--   pointers, its deadline timer, and `connect`, `write` and `read`; Session/Lifecycle has their
--   sequences as a step relation, and Session/Message the HTTP messages that are handed to it.
-- - Rpc: Rpc/Env is what is used of other code, Rpc/World the shared state and the log of what the
--   outside sees, Rpc/Request is `RpcSession` (src/milecsa_rpc_session.cpp, include/milecsa_rpc_id.hpp),
--   Rpc/Client the methods of `rpc::Client` (src/milecsa_jsonrpc.cpp), Rpc/Transaction and Rpc/Call the
--   commands and `Client::call` (src/milecsa_jsonrpc_call.cpp). Rpc/Ends has the rules for what holds
--   when a step has ended, Rpc/Call/Stages follows a call through its stages, Rpc/Call/Protocol and
--   Rpc/Call/Link are what the stages say of the requests and of the connection, and Rpc/Call/Typed is
--   about the kind of value that a call returns. Rpc/Call/Early and Rpc/Call/Rejected are about the calls
--   that are rejected before anything is sent.
-- - Connection: Connection/Transport makes a session the connection of Rpc/Env, and Connection/Client
--   is `Connect` and `http::Client::get` (src/milecsa_jsonrpc.cpp, src/milcesa_http.cpp).
--   Connection/Calls, Connection/Defined and Connection/Messages are about calls over a session,
--   Connection/Barred and Connection/BlockId about the block id that a transaction takes untested, and
--   Connection/Clients is the construction, copy, assignment and destruction of clients that share
--   sessions.
-- - Cli: Cli/Options is what is used of boost::program_options, and Cli/Wallet/Options and
--   Cli/Transfer/Options are `parse_cmdline` of the two programs. Cli/Wallet/Attempts and
--   Cli/Transfer/Attempts are the bodies of `do_request`, and Cli/Outside what these share. Cli/Wallet is
--   `main` with its retries (mile_cli_wallet/mile_cli_wallet.cpp), Cli/Password is `getpasswd`, and
--   Cli/Transfer is `main` with its prompts and retries (mile_cli_wallet/mile_cli_transfer.cpp).
--   Cli/Wallet/Program and Cli/Transfer/Program put these together: the programs from their arguments on.
-- - Session/Prompt, Rpc/Request/Answer, Connection/Answers, Connection/Reached and the modules Served follow
--   what goes well, from an operation of a session up to the wallet.
-- - Tests: runs at concrete inputs.
--
-- Parameters. boost::regex and boost::to_upper (Url/Parse), nlohmann::json, the MILE API library and the
-- connection (Rpc/Env), boost::program_options and the keys of a wallet (Cli/Options) are records of
-- operations; what is relied on is a record of laws, `IsBoost`, `IsTransport`, `IsJson`,
-- `IsProgramOptions` and `IsKeyLibrary`. A match of boost::regex may be given up as too
-- complex, with an exception that leaves `Url::Parse`; nothing is assumed of which texts make it so.
-- Boost.Asio is the list of the events that `run_one` delivers.
--
-- Bounds and fuel. The ids of commands are 64 bits wide and wrap around; a port has 16 bits. The loops
-- of the session recurse on the events, and end without a result if these run out: this is a call that
-- never returns. The programs' retries have as fuel one attempt more than the option allows.
--
-- Not modelled: the debug output, the values that fill an error message, the waiting between two attempts,
-- and the short names and the texts of the options. An exception that leaves an attempt which the error
-- handler makes passes through the calls round it; what they make of it is not followed, and the run is
-- then `lost`. A text of the command line and one of the json library are two types, and so are their
-- floating point numbers: the functions between them are arguments of the programs.
pub mod Base
pub mod Effects
pub mod Regex
pub mod Url
pub mod Session
pub mod Rpc
pub mod Connection
pub mod Cli
mod Tests
