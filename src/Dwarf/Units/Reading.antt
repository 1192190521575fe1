-- ===== src/Dwarf/Units/Reading.antt =====
-- `parse`, `extract` and `fullExtract` of dwarf/CDWARFCompileUnit.cpp. `unset` is what locals hold that
-- are read before they have a value. The strings stand in a stream of their own.

pub mod Endless
use mach_olib.Common.{
  ℕ, zero, suc, ◌+◌, ◌-◌, ◌%◌, ◌^◌, ◌==◌, ltb, leb, if◌then◌else◌, Bool, true, false, ◌&&◌, ◌||◌,
  not, Option, none, some, List, [], ◌∷◌, ◌++◌, get_elem?, length, set,
}
use mach_olib.Io.Platform.{Platform}
use mach_olib.Io.Stream.{Device, Stream, Action, Width, w8, w16, w32, w64, get, position, seek}
use mach_olib.Io.Substream.{add64}
use mach_olib.Dwarf.Abbreviations.{Table}
use mach_olib.Dwarf.Entries.{DebugInfoEntry, new_entry, parse_if, parse_all}
use mach_olib.Dwarf.Entries.Getters.{
  invalid_address, is_compile_unit, get_stmt_list, get_low_pc, get_enter_pc, get_name,
}
use mach_olib.Dwarf.Units.{Node, node_at, CompileUnit, layout_of}

module _ (p : Platform) {T : Type 0} (debug_str : Device T) {S : Type 0} (d : Device S)
    (unset : Width → ℕ) where
  -- `stmt_list`, the base address and the name, from the entry of the unit itself.
  unfoldable pub take_attributes : DebugInfoEntry → CompileUnit → Stream T → CompileUnit × Stream T
  unfolding get_stmt_list get_low_pc get_enter_pc get_name
  take_attributes die u strings =
      let low = get_low_pc p invalid_address die in
      let (name, strings') = get_name p debug_str die strings in
      (
        record u {
          stmt_list = get_stmt_list p invalid_address die;
          base_address = if low == invalid_address then get_enter_pc p invalid_address die else low;
          name = name;
        },
        strings',
      )

  -- `extract`: the node that it appends, if it does. The delegate is `is_complie_unit`.
  unfoldable pub extract :
      Table → CompileUnit → Stream T → Stream S → (Option Node × CompileUnit) × Stream T × Stream S
  extract table u strings s =
      let ((good, die), s') =
        parse_if p d (layout_of u) unset (λ tag. tag == 0x11) table new_entry s in
      let node : Node = record { offset = position d s; die = die; depth = 0 } in
      let (named, strings') = take_attributes die u strings in
      if good
      then (if is_compile_unit die
          then ((some node, named), strings', s')
          else ((some node, u), strings, s'))
      else ((none, u), strings, s')

  -- `while(stream->position() < end)`; `none` where the rounds do not suffice.
  unfoldable pub read_entries :
      ℕ
      → Table
      → ℕ
      → ℕ
      → CompileUnit
      → Stream T
      → Stream S
      → Option (CompileUnit × Stream T × Stream S)
  read_entries zero table end depth u strings s = none
  read_entries (suc fuel) table end depth u strings s =
      let ((die, u'), strings', s') = extract table u strings s in
      let more_for = read_entries fuel table end in
      let next : Option (CompileUnit × Stream T × Stream S) = elim die [
        | none ↦ more_for ((depth + (2 ^ 32 - 1)) % 2 ^ 32) u' strings' s'
        | some node ↦
            let placed : Node = record node { depth = depth } in
            let whole : CompileUnit = record u' { entries = u'.entries ++ (placed ∷ []) } in
            more_for (if node.die.has_child then (depth + 1) % 2 ^ 32 else depth) whole strings' s'
      ] in
      if ltb (position d s) end then next else some (u, strings, s)

  -- `parse`, with the rounds that its loop may take.
  unfoldable pub parse_unit :
      ℕ
      → Table
      → CompileUnit
      → Stream T
      → Stream S
      → Option (Bool × CompileUnit × Stream T × Stream S)
  parse_unit fuel table u strings s =
      let (length32, s1) = get d w32 (unset w32) s in
      let (length64, s2) = get d w64 u.length s1 in
      let end = add64 (position d s1) length32 in
      let (version, s3) = get d w16 (unset w16) s1 in
      let (abbr_offset, s4) = get d w32 (unset w32) s3 in
      let (addr_size, s5) = get d w8 (unset w8) s4 in
      let read : CompileUnit = record u {
        dwarf_format = 32;
        length = length32;
        version = version % 16;
        addr_size = addr_size % 16;
      } in
      let fine =
        leb 2 read.version && leb read.version 4 && (read.addr_size == 4 || read.addr_size == 8) in
      let parsed : Option (Bool × CompileUnit × Stream T × Stream S) =
        elim (read_entries fuel table end 0 (record read { entries = [] }) strings s5) [
          | none ↦ none
          | some (whole, strings', s') ↦ some (ltb 0 (length whole.entries), whole, strings', s')
        ] in
      if length32 == 0xffffffff
      then some (false, record u { length = length64; dwarf_format = 64 }, strings, s2)
      else if fine
      then parsed
      else some (false, read, strings, s5)

  -- `fullExtract` of an index in the table: the entry is read again, whole.
  unfoldable pub full_extract : ℕ → Table → CompileUnit → Stream S → (Bool × CompileUnit) × Stream S
  full_extract idx table u s = elim (get_elem? u.entries idx) [
    | none ↦ ((false, u), s)
    | some node ↦
        let (_, s1) = seek d node.offset s in
        let ((good, die), s2) = parse_all p d (layout_of u) unset table node.die s1 in
        ((good, record u { entries = set u.entries idx (record node { die = die }) }), s2)
  ]
