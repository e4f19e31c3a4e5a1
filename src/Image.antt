-- ===== src/Image.antt =====
-- src/image: references, the local index and its garbage collection, and layer unpacking.
pub mod Unpack
pub mod Index
pub mod Gc
pub mod Reference
pub mod Platform
pub mod Base64
