-- ===== src/Macho.antt =====
-- macho/: the Mach-O container, its headers and its tables.
pub mod Header
pub mod Uuid
pub mod Commands
pub mod Fat
pub mod Symbols
pub mod Sections
pub mod Segments
