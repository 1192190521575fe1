-- ===== src/Dwarf/Units.antt =====
-- dwarf/CDWARFCompileCompileUnit.h and dwarf/CDWARFCompileUnit.cpp: a compile unit, the tree of its entries in
-- the order of the file with their depths, and how it is read. A pointer to an entry of the unit is
-- its index.
pub mod Tree
pub mod Reading
pub mod Addresses
pub mod Table
use mach_olib.Common.{
  ℕ, zero, suc, ◌+◌, ◌-◌, ◌%◌, ◌^◌, ◌==◌, ltb, leb, if◌then◌else◌, Bool, true, false, ◌&&◌, ◌||◌,
  not, Option, none, some, List, [], ◌∷◌, ◌++◌, get_elem?, length,
}
use mach_olib.Dwarf.FormValue.{Layout}
use mach_olib.Dwarf.Entries.{DebugInfoEntry, new_entry}
use mach_olib.Dwarf.Entries.Getters.{invalid_address}

-- `DebugInfoEntryNode`
pub record Node : Type 0 where
  pub offset : ℕ
  pub die : DebugInfoEntry
  pub depth : ℕ

-- `DebugInfoEntryNode(t_uint64 offset)`
abbrev pub node_at : ℕ → Node
node_at offset = record { offset = offset; die = new_entry; depth = 0 }

pub record CompileUnit : Type 0 where
  pub base_address : ℕ
  pub stmt_list : ℕ
  pub length : ℕ
  pub version : ℕ
  pub addr_size : ℕ
  pub dwarf_format : ℕ
  pub name : List ℕ
  pub entries : List Node

-- `CDWARFCompileUnit::CDWARFCompileUnit`
abbrev pub new_unit : CompileUnit
new_unit = record {
  base_address = invalid_address;
  stmt_list = invalid_address;
  length = 0;
  version = 0;
  addr_size = 0;
  dwarf_format = 0;
  name = [];
  entries = [];
}

-- What the entries take from their unit: `getAddrSize`, `getDwarfFromat` and `getVersion`.
unfoldable pub layout_of : CompileUnit → Layout
layout_of u = record {
  addr_size = u.addr_size;
  dwarf_format = u.dwarf_format;
  dwarf_version = u.version;
}

-- `getHeaderSize`
abbrev pub header_size : ℕ
header_size = 4 + 2 + 4 + 1

-- `kINVALID_IDX`
abbrev pub invalid_idx : ℕ
invalid_idx = 2 ^ 32 - 1

index_from : ℕ → ℕ → List Node → Option ℕ
index_from i offset [] = none
index_from i offset (n ∷ nodes) =
    let later = index_from (i + 1) offset nodes in if n.offset == offset then some i else later

-- `getNodeByOffset`, as the index in the table, or `none` for its end
unfoldable pub node_by_offset : ℕ → CompileUnit → Option ℕ
unfolding index_from
node_by_offset offset u = index_from 0 offset u.entries

-- `getIdxByOffset`
unfoldable pub idx_by_offset : ℕ → CompileUnit → ℕ
unfolding node_by_offset
idx_by_offset offset u = elim (node_by_offset offset u) [ some i ↦ i % 2 ^ 32 | none ↦ invalid_idx ]

-- `getDIEByIdx`, which is undefined for an index that is not in the table; `none` is NULL there too.
unfoldable pub die_by_idx : ℕ → CompileUnit → Option DebugInfoEntry
die_by_idx idx u =
    let found : Option DebugInfoEntry = elim (get_elem? u.entries idx) [
      | none ↦ none
      | some n ↦ some n.die
    ] in
    if idx == invalid_idx then none else found

-- `getDIEByOffset`, and `extractDIEByOffset`, which calls it
unfoldable pub die_by_offset : ℕ → CompileUnit → Option DebugInfoEntry
unfolding node_by_offset
die_by_offset offset u = elim (node_by_offset offset u) [
  | none ↦ none
  | some i ↦ elim (get_elem? u.entries i) [ none ↦ none | some n ↦ some n.die ]
]
