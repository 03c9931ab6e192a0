-- ===== src/Addressing.antt =====
-- src/phylum/addressing.h: geometries, sector addresses and block addresses. The methods of each
-- struct have a module; the modules below them prove what they mean.
mod Types
pub mod Geom
pub mod Addr
pub mod Room
pub mod TailRoom
pub mod Layouts
unfoldable pub use Types.*
