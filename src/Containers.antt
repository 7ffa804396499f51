-- ===== src/Containers.antt =====
-- lib/containers/: the containers that the kernel and the programs share.
pub mod Cbuf
pub mod Bitmap
pub mod StaticPool
