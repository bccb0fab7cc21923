-- ===== src/Index.antt =====
-- common/index.h and common/index.cpp: the metadata of the file system, kept in memory.
pub mod Tree
pub mod Walk
pub mod Edit
pub mod Whole
pub mod Read
pub mod Saved
pub mod Collect
mod Examples
