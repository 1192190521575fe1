-- ===== src/Dwarf/Lines.antt =====
-- dwarf/CDWARFDebugLine.h and dwarf/CDWARFDebugLine.cpp: the rows of a line table, the registers that
-- make them, and the lookup of an address in a table sorted by address. The prologue is what the
-- program has read of it, without its file names.
pub mod Lookup
pub mod Sequences
pub mod Decode
pub mod Header
pub mod Tables
pub mod Versions
use mach_olib.Common.{
  ℕ, ◌+◌, ◌-◌, ◌*◌, ◌/◌, ◌%◌, ◌^◌, min, max, ◌==◌, ltb, if◌then◌else◌, Bool, true, false, not,
  Option, none, some, List, [], ◌∷◌, ◌++◌, get_elem?, length, lower_bound,
}
use mach_olib.Io.Platform.{Platform}

-- `m_line_base` is kept as the 32-bit pattern that it has after its promotion to `int`.
pub record Prologue : Type 0 where
  pub min_inst_length : ℕ
  pub default_is_stmt : Bool
  pub line_base : ℕ
  pub line_range : ℕ
  pub opcode_base : ℕ

pub record Row : Type 0 where
  pub address : ℕ
  pub line : ℕ
  pub column : ℕ
  pub file : ℕ
  pub isa : ℕ
  pub is_stmt : Bool
  pub basic_block : Bool
  pub end_sequence : Bool
  pub prologue_end : Bool
  pub epilogue_begin : Bool

-- `CDWARFRow::reset`
unfoldable pub reset : Bool → Row → Row
reset default_is_stmt row = record {
  address = 0;
  line = 1;
  column = 0;
  file = 1;
  isa = 0;
  is_stmt = default_is_stmt;
  basic_block = false;
  end_sequence = false;
  prologue_end = false;
  epilogue_begin = false;
}

-- `CDWARFRow::CDWARFRow`
abbrev pub first_row : Row
first_row = record {
  address = 0;
  line = 1;
  column = 0;
  file = 1;
  isa = 0;
  is_stmt = false;
  basic_block = false;
  end_sequence = false;
  prologue_end = false;
  epilogue_begin = false;
}

-- `m_rows`, `m_min_addr` and `m_max_addr` of `CDWARFLineTable`, and the register `row` of `parse`.
pub record Machine : Type 0 where
  pub rows : List Row
  pub min_addr : ℕ
  pub max_addr : ℕ
  pub row : Row

abbrev pub start : Machine
start = record { rows = []; min_addr = 2 ^ 64 - 1; max_addr = 0; row = first_row }

-- What a decoded opcode of the loop of `CDWARFLineTable::parse` does; the operands are the numbers that
-- the stream gave. An opcode without an effect on the registers is `skip`: an unknown one, and
-- `DW_LNE_define_file`.
pub data Opcode : Type 0 where
  special : ℕ → Opcode
  copy : Opcode
  advance_pc advance_line set_file set_column fixed_advance_pc set_isa set_address : ℕ → Opcode
  negate_stmt set_basic_block const_add_pc set_prologue_end set_epilogue_begin : Opcode
  end_sequence skip : Opcode

-- The flags that end with a row.
unfoldable pub clear_flags : Row → Row
clear_flags row = record row { basic_block = false; prologue_end = false; epilogue_begin = false }

unfoldable pub emit : Row → Machine → Machine
emit row m = record m { rows = m.rows ++ (row ∷ []) }

unfoldable pub widen : Row → Machine → Machine
widen row m = record m {
  min_addr = min m.min_addr row.address;
  max_addr = max m.max_addr row.address;
}

-- The division by the line range, which the code does not test for zero.
unfoldable pub quotient : Platform → Prologue → ℕ → ℕ
quotient c p x = if p.line_range == 0 then c.zero_quotient x else x / p.line_range

unfoldable pub remainder : Platform → Prologue → ℕ → ℕ
remainder c p x = if p.line_range == 0 then c.zero_remainder x else x % p.line_range

-- `(adjust_opcode / line_range) * min_inst_length`
unfoldable pub address_advance : Platform → Prologue → ℕ → ℕ
unfolding quotient
address_advance c p adjust_opcode = quotient c p adjust_opcode * p.min_inst_length

unfoldable pub advance : ℕ → Row → Row
advance offset row = record row { address = (row.address + offset) % 2 ^ 64 }

unfoldable pub run_special : Platform → Prologue → ℕ → Machine → Machine
unfolding remainder
run_special c p opcode m =
    let adjust_opcode = opcode - p.opcode_base in
    let line_offset = p.line_base + remainder c p adjust_opcode in
    let moved = record m.row { line = (m.row.line + line_offset) % 2 ^ 32 } in
    let row = advance (address_advance c p adjust_opcode) moved in
    record (emit row (widen row m)) { row = clear_flags row }

unfoldable pub run : Platform → Prologue → Opcode → Machine → Machine
run c p (special opcode) m = run_special c p opcode m
run c p copy m = record (emit m.row m) { row = clear_flags m.row }
run c p (advance_pc addr) m = record m { row = advance (addr * p.min_inst_length) m.row }
run c p (advance_line line) m = record m {
  row = record m.row { line = (m.row.line + line) % 2 ^ 32 };
}
run c p (set_file ufile) m = record m { row = record m.row { file = ufile % 2 ^ 16 } }
run c p (set_column ucolumn) m = record m { row = record m.row { column = ucolumn % 2 ^ 16 } }
run c p (fixed_advance_pc addr) m = record m { row = advance addr m.row }
run c p (set_isa isa) m = record m { row = record m.row { isa = isa % 256 } }
run c p (set_address addr) m = record m { row = record m.row { address = addr } }
run c p negate_stmt m = record m { row = record m.row { is_stmt = not m.row.is_stmt } }
run c p set_basic_block m = record m { row = record m.row { basic_block = true } }
run c p const_add_pc m = record m {
  row = advance (address_advance c p (255 - p.opcode_base)) m.row;
}
run c p set_prologue_end m = record m { row = record m.row { prologue_end = true } }
run c p set_epilogue_begin m = record m { row = record m.row { epilogue_begin = true } }
run c p end_sequence m =
    let row = record m.row { end_sequence = true } in
    record (emit row (widen row m)) { row = reset p.default_is_stmt row }
run c p skip m = m

unfoldable pub run_all : Platform → Prologue → List Opcode → Machine → Machine
run_all c p [] m = m
run_all c p (o ∷ os) m = run_all c p os (run c p o m)

abbrev pub bad_row_idx : ℕ
bad_row_idx = 2 ^ 32 - 1

-- `CDWARFLineTable::lookupAddress`
unfoldable pub lookup_address : ℕ → List Row → ℕ
lookup_address address rows =
    let pos = lower_bound (λ r. r.address) address rows in
    elim (get_elem? rows pos) [
      | none ↦ bad_row_idx
      | some row ↦
          if ltb address row.address
          then (if ltb 0 (pos % 2 ^ 32) then pos % 2 ^ 32 - 1 else bad_row_idx)
          else pos % 2 ^ 32
    ]
