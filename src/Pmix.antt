-- ===== src/Pmix.antt =====
-- swm-pmix, the PMIx server of one node: c_src/pmix/pmix_server_main.cpp.
pub mod Base64
pub mod Fence
pub mod Register
pub mod Server
