-- ===== src/Dwarf/Lines/Decode.antt =====
-- The decoding of dwarf/CDWARFDebugLine.cpp: an opcode of a line program from the stream, and the loop
-- of `CDWARFLineTable::parse` over them. `unset` is what locals hold that are read before they have a
-- value.

pub mod Codes
pub mod Operands
pub mod Extended
pub mod Opcodes
pub mod Rounds
use mach_olib.Common.{
  ℕ, zero, suc, ◌+◌, ◌-◌, ◌%◌, ◌^◌, ◌==◌, ltb, leb, if◌then◌else◌, Bool, true, false, ◌&&◌, Option,
  none, some, List, [], ◌∷◌, ◌++◌, get_or,
}
use mach_olib.Io.Platform.{Platform}
use mach_olib.Io.Stream.{
  Device, Stream, Action, Width, w8, w16, w32, w64, get, position, size, seek, pure, ◌>>=◌,
}
use mach_olib.Io.Substream.{add64}
use mach_olib.Io.Leb.{read_uleb128, read_sleb128}
use mach_olib.Io.Text.{read_sz}
use mach_olib.Dwarf.FormValue.{c_string}
use mach_olib.Dwarf.Lines.{
  Prologue, Machine, run, Opcode, special, copy, advance_pc, advance_line, set_file, set_column,
  fixed_advance_pc, set_isa, set_address, negate_stmt, set_basic_block, const_add_pc,
  set_prologue_end, set_epilogue_begin, end_sequence, skip,
}

-- `CDWARFFileNameEntry`
pub record FileNameEntry : Type 0 where
  pub name : List ℕ
  pub dir_idx : ℕ
  pub mod_time : ℕ
  pub length : ℕ

-- What the loop keeps: the lengths of the standard opcodes, the files, and the registers.
pub record LineState : Type 0 where
  pub file_names : List FileNameEntry
  pub machine : Machine

module _ (p : Platform) {S : Type 0} (d : Device S) (unset : Width → ℕ) (prologue : Prologue)
    (standard_opcode_lengths : List ℕ) where
  -- One number in groups of seven bits, as the operand of an opcode.
  unfoldable pub uleb_operand : (ℕ → Opcode) → Action S (Opcode × Option FileNameEntry)
  uleb_operand op s = let ((_, v), s') = read_uleb128 p d s in ((op v, none), s')

  unfoldable pub skip_operands : ℕ → Stream S → Stream S
  skip_operands zero s = s
  skip_operands (suc n) s = skip_operands n (read_uleb128 p d s).1

  unfoldable pub read_file : Action S FileNameEntry
  unfolding c_string
  read_file = do
    sz ← read_sz d 4096
    (_, dir_idx) ← read_uleb128 p d
    (_, mod_time) ← read_uleb128 p d
    (_, length) ← read_uleb128 p d
    pure (record { name = c_string sz; dir_idx = dir_idx; mod_time = mod_time; length = length })

  -- `case DW_LNE_set_address`
  unfoldable pub address_operand : ℕ → Action S (Opcode × Option FileNameEntry)
  address_operand arg_size s =
      let (addr32, s4) = get d w32 (unset w32) s in
      let (addr64, s8) = get d w64 (unset w64) s in
      if arg_size == 4
      then ((set_address addr32, none), s4)
      else if arg_size == 8
      then ((set_address addr64, none), s8)
      else ((skip, none), s)

  -- Behind the opcode 0.
  unfoldable pub decode_extended : Action S (Opcode × Option FileNameEntry)
  decode_extended s =
      let pos = position d s in
      let ((_, len), s1) = read_uleb128 p d s in
      let (sub_opcode, s2) = get d w8 (unset w8) s1 in
      let arg_size = (len + (2 ^ 64 - 1)) % 2 ^ 64 in
      let (entry, s3) = read_file s2 in
      if sub_opcode == 0x01
      then ((end_sequence, none), s2)
      else if sub_opcode == 0x02
      then address_operand arg_size s2
      else if sub_opcode == 0x03
      then ((skip, some entry), s3)
      else ((skip, none), (seek d (add64 pos len) s2).1)

  -- `switch (opcode)` of an opcode below `m_opcodeBase`
  unfoldable pub decode_standard : ℕ → Action S (Opcode × Option FileNameEntry)
  decode_standard opcode s =
      let ((_, line), s1) = read_sleb128 p d s in
      let (addr, s2) = get d w16 (unset w16) s in
      if opcode == 0x01
      then ((copy, none), s)
      else if opcode == 0x02
      then uleb_operand advance_pc s
      else if opcode == 0x03
      then ((advance_line line, none), s1)
      else if opcode == 0x04
      then uleb_operand set_file s
      else if opcode == 0x05
      then uleb_operand set_column s
      else if opcode == 0x06
      then ((negate_stmt, none), s)
      else if opcode == 0x07
      then ((set_basic_block, none), s)
      else if opcode == 0x08
      then ((const_add_pc, none), s)
      else if opcode == 0x09
      then ((fixed_advance_pc addr, none), s2)
      else if opcode == 0x0a
      then ((set_prologue_end, none), s)
      else if opcode == 0x0b
      then ((set_epilogue_begin, none), s)
      else if opcode == 0x0c
      then uleb_operand set_isa s
      else ((skip, none), skip_operands (get_or standard_opcode_lengths (opcode - 1) 0) s)

  -- The opcode of a round, with the file that it defines, if it does.
  unfoldable pub decode : Action S (Opcode × Option FileNameEntry)
  decode s =
      let (opcode, s') = get d w8 (unset w8) s in
      if opcode == 0
      then decode_extended s'
      else if ltb opcode prologue.opcode_base
      then decode_standard opcode s'
      else ((special opcode, none), s')

  unfoldable pub apply : Opcode × Option FileNameEntry → LineState → LineState
  apply (op, none) l = record l { machine = run p prologue op l.machine }
  apply (op, some entry) l = record {
    file_names = l.file_names ++ (entry ∷ []);
    machine = run p prologue op l.machine;
  }

  -- `while (stream->position() < end_offset)`; `none` where the rounds do not suffice.
  unfoldable pub decode_all : ℕ → ℕ → LineState → Stream S → Option (LineState × Stream S)
  decode_all zero end_offset l s = none
  decode_all (suc fuel) end_offset l s =
      let (decoded, s') = decode s in
      let more = decode_all fuel end_offset (apply decoded l) s' in
      if ltb (position d s) end_offset then more else some (l, s)
