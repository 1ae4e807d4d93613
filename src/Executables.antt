-- ===== src/Executables.antt =====
-- fcd/executables and fcd/symbols: the files that fcd decompiles and the addresses in them.
pub mod Memory
pub mod Ranges
pub mod Maps
pub mod Symbols
pub mod Caches
pub mod EntryPoints
pub mod Providers
pub mod Layout
pub mod Elf
pub mod Triple
pub mod Headers
pub mod Segments
pub mod Loops
pub mod Errors
pub mod Dashes
pub mod Gives
pub mod Reads
pub mod Ends
pub mod Finish
pub mod Parsed
pub mod Mapped
pub mod Unmapped
pub mod Parse
pub mod Tables
pub mod Factory
pub mod Tests
