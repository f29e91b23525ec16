-- ===== src/Cli.antt =====
-- mile_cli_wallet/mile_cli_wallet.cpp and mile_cli_wallet/mile_cli_transfer.cpp: the two programs.
pub mod Password
pub mod Options
pub mod Outside
pub mod Wallet
pub mod Transfer
