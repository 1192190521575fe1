-- ===== src/Lib.antt =====
-- A verification library for MachOLib, a C++ library that reads Mach-O files: their headers, symbol
-- tables and DWARF debugging information.
--
-- The program's parts, and the files that model them. Everything is read through `stream_base`
-- (io/stream_base.h), a class with the virtual functions size, seek, position, read and write, on top of
-- which stand the readers of integers, strings and LEB128 numbers. The Mach-O classes (macho/) and the
-- DWARF classes (dwarf/) read their tables by way of it; `Loadable` (base/) decides when they do.
--
-- - Common: the library's names, Boolean tests, lists measured by the native numbers, bit operations
--   as arithmetic, and the binary searches of <algorithm> as what they find in a sorted vector.
-- - Io.Platform: what the program takes from the platform: malloc and realloc, which may
--   give NULL, what follows where the language leaves it undefined (a shift out of range, a division
--   by zero, a copy through NULL), and the layout of strings. It is a parameter.
-- - Io.Codec: io/lecodec.hpp and io/becodec.hpp, over the bytes of the union.
-- - Io.Stream: io/stream_base.h and io/stream_base.cpp. A `Device S` is the virtual functions of a class
--   whose objects are `S`; a `Stream S` is an object with its byte order; every operation takes the
--   stream and gives its result and the stream afterwards. `IsReader` (Io.Stream.Laws) is what a
--   readable class promises, a content and a position in it, and the readers rest on it alone.
-- - Io.Memory, Io.Dynamic, Io.Substream: io/stream_memory.cpp, io/stream_dmemory.cpp and
--   io/substream.cpp, as devices.
-- - Io.Cache: io/stream_cache.hpp, over a parent device.
-- - Io.Text and Io.Leb: read_sz, write_sz, read_uleb128 and read_sleb128 of io/stream_base.cpp.
-- - Base: base/Loadable.cpp and base/macho_errors.h. `_load` of the derived class is a parameter.
-- - Macho.Header: MachHeader::Read of macho/CMachO.cpp and CFATArch::deserialize of macho/CFatArch.cpp.
-- - Macho.Uuid: macho/UUID.cpp, on character codes.
-- - Macho.Commands: `lc_iterator` of macho/CMachO.cpp and the units that walk the load commands for the
--   table of the commands, the UUID and the minimal version.
-- - Macho.Fat: `_load`, `getMachO` by type, `getMachOAt`, `count` and `getAllUUIDs` of macho/CFAT.cpp.
-- - Macho.Symbols: the flags of macho/CSymbol.cpp, and macho/CSymbolTable.cpp; Macho.Symbols.Loading is
--   its preload and load.
-- - Macho.Sections and Macho.Segments: macho/CSection.cpp and macho/CSegment.cpp, the map of the
--   sections as the list of its pairs in the map's order.
-- - Dwarf.Aranges: getRangesBy of dwarf/CDWARFArangeTable.cpp, and Dwarf.Aranges.Sets: its parse.
-- - Dwarf.Ranges: dwarf/CDWARFRangeTable.h and dwarf/CDWARFRangeTable.cpp.
-- - Dwarf.Forms and Dwarf.FormValue: dwarf/CDWARFFormValue.cpp, with the forms of dwarf/EDWARF.h; the
--   union of a value is a word or a string, and Dwarf.FormValue.Skip is how a value is left out.
-- - Dwarf.Abbreviations: dwarf/CDWARFAbbreviationTable.cpp, the map as the list of its pairs.
-- - Dwarf.Entries: dwarf/CDWARFDebugInfoEntry.cpp, which reads an entry with the declaration that its
--   code names, and dwarf/utility/CDWARFRangeResolver.hpp.
-- - Dwarf.Units: dwarf/CDWARFCompileUnit.cpp, the table of the entries of a unit; Dwarf.Units.Reading
--   fills it, and Dwarf.Units.Tree finds parents and children in it.
--   Dwarf.Units.Addresses finds the entries that hold an address, and Dwarf.Units.Table is
--   dwarf/CDWARFCompileUnitTable.cpp.
-- - Dwarf.Lines: the registers and opcodes of CDWARFLineTable::parse and lookupAddress, in
--   dwarf/CDWARFDebugLine.cpp; Dwarf.Lines.Decode decodes the opcodes, Dwarf.Lines.Header reads the
--   prologue, and Dwarf.Lines.Tables keeps the tables of a section.
-- - Tests: concrete inputs for the theorems.
--
-- Numbers are natural numbers, with the wrap-around of their C++ types written out. A buffer is a list of
-- bytes. A local variable that the code leaves unset is an argument that gives what it holds.
--
-- Fuel. The loop of read_uleb128 and read_sleb128 runs on the size of the stream: it takes a byte in each
-- round. The loop of
-- read_sz runs on max_size + 1, and counts to max_size. The walk over the load commands runs on their
-- count, and the loop for the first tuple of a set of ranges on the size of the header. The loops that read range lists and sets of ranges run on the size of the stream: each
-- round takes at least a byte or is the last. The loops of parse and Skip of a form value run on two
-- rounds more than the stream has bytes, since only an indirect form goes on, and takes a byte; those of
-- the abbreviations run on the size of the stream. The loops over the entries of a unit,
-- over the opcodes of a line program and of findDeclaration do not always end, so their rounds are an
-- argument, and they give nothing where these do not suffice.
--
-- Not modelled: files (io/stream_file.cpp, io/source_of_stream.cpp), which are the operating system's;
-- swrite; the other units of macho/CMachO.cpp; the
-- aggregator of dwarf/; utility/, which reads directories and
-- writes texts; libiberty/ and utility/crypto/, which are copies of other projects; and the wrappers
-- CFATW.cpp, CMachOW.cpp and the like, each of which only calls the class behind it.
pub mod Common
pub mod Io
pub mod Base
pub mod Macho
pub mod Dwarf
pub mod Tests
