-- ===== src/Dwarf.antt =====
-- dwarf/: the tables of the debugging information that map addresses.
pub mod Ranges
pub mod Aranges
pub mod Lines
pub mod Forms
pub mod FormValue
pub mod Abbreviations
pub mod Entries
pub mod Units
