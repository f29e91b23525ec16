-- ===== src/Url.antt =====
-- src/milecsa_url.cpp and include/milecsa_url.hpp: the class `Url` and `Url::Parse`.
pub mod Number
pub mod Pattern
pub mod Parse
pub mod Scan
