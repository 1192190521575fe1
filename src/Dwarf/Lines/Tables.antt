-- ===== src/Dwarf/Lines/Tables.antt =====
-- The line tables of dwarf/CDWARFDebugLine.cpp: those of a section, sorted by their greatest addresses,
-- and the searches for one. `std::sort` is a parameter, for the rows and for the tables.
use mach_olib.Common.{
  ℕ, zero, suc, ◌==◌, ltb, if◌then◌else◌, Bool, true, false, Option, none, some, List, [], ◌∷◌,
  ◌++◌, take, drop, get_elem?, lower_bound,
}
use mach_olib.Io.Platform.{Platform}
use mach_olib.Io.Stream.{Device, Stream, Width, position, size, seek}
use mach_olib.Dwarf.Lines.{Row, Machine}
use mach_olib.Dwarf.Lines.Header.{LineHeader, parse_line_table}

-- `LineTableNode`; `operator <` compares the greatest addresses of the tables.
pub record LineTableNode : Type 0 where
  pub offset : ℕ
  pub header : LineHeader
  pub machine : Machine

-- `CDWARFDebugLine::insert`
unfoldable pub insert_table : LineTableNode → List LineTableNode → List LineTableNode
insert_table node tables =
    let i = lower_bound (λ n. n.machine.max_addr) node.machine.max_addr tables in
    take i tables ++ (node ∷ drop i tables)

-- `getLineTable`, which searches for an address; `none` is `kBAD_LINE_TABLE`
unfoldable pub line_table_at : ℕ → List LineTableNode → Option LineTableNode
line_table_at address tables =
    get_elem? tables (lower_bound (λ n. n.machine.max_addr) address tables)

-- `getLineTableByOffset`
unfoldable pub line_table_by_offset : ℕ → List LineTableNode → Option LineTableNode
line_table_by_offset offset [] = none
line_table_by_offset offset (n ∷ tables) =
    let later = line_table_by_offset offset tables in if n.offset == offset then some n else later

module _ (p : Platform) {S : Type 0} (d : Device S) (unset : Width → ℕ)
    (sort : List Row → List Row) where
  -- `extract`, with the rounds that a table may take: the node, the tables, and the stream.
  unfoldable pub extract_table :
      ℕ
      → List LineTableNode
      → Stream S
      → Option (Option LineTableNode × List LineTableNode × Stream S)
  unfolding insert_table
  extract_table fuel tables s = elim (parse_line_table p d unset sort fuel s) [
    | none ↦ none
    | some ((good, header, machine), s') ↦
        let node : LineTableNode = record {
          offset = position d s;
          header = header;
          machine = machine;
        } in
        if good then some (some node, insert_table node tables, s') else some (none, tables, s')
  ]

  -- `extractLineTableByOffset`
  unfoldable pub extract_table_by_offset :
      ℕ
      → ℕ
      → List LineTableNode
      → Stream S
      → Option (Option LineTableNode × List LineTableNode × Stream S)
  extract_table_by_offset fuel stmt_offset tables s =
      let there = extract_table fuel tables (seek d stmt_offset s).1 in
      elim (line_table_by_offset stmt_offset tables) [
        | some node ↦ some (some node, tables, s)
        | none ↦ there
      ]

  -- The loop of `CDWARFDebugLine::parse`: the tables in the order of the file, or none of them where one
  -- fails. `rounds` is what each table may take; a table takes a byte at least.
  unfoldable pub parse_tables :
      ℕ → ℕ → List LineTableNode → Stream S → Option ((Bool × List LineTableNode) × Stream S)
  parse_tables zero rounds tables s = some ((true, tables), s)
  parse_tables (suc fuel) rounds tables s =
      let step : Option ((Bool × List LineTableNode) × Stream S) =
        elim (parse_line_table p d unset sort rounds s) [
          | none ↦ none
          | some ((good, header, machine), s') ↦
              let node : LineTableNode = record {
                offset = position d s;
                header = header;
                machine = machine;
              } in
              let more = parse_tables fuel rounds (tables ++ (node ∷ [])) s' in
              if good then more else some ((false, []), s')
        ] in
      if ltb (position d s) (size d s) then step else some ((true, tables), s)

  unfoldable pub parse_debug_line :
      (List LineTableNode → List LineTableNode)
      → ℕ
      → Stream S
      → Option ((Bool × List LineTableNode) × Stream S)
  parse_debug_line sort_tables rounds s = elim (parse_tables (size d s) rounds [] s) [
    | none ↦ none
    | some ((good, tables), s') ↦ some ((good, sort_tables tables), s')
  ]
