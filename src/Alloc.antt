-- ===== src/Alloc.antt =====
-- src/core/alloc.c: inodes, fragments and blocks are taken from the cylinder groups and given back.
pub mod InodeGroup
pub mod Fragments
pub mod Runs
pub mod Indirect
pub mod Storage
