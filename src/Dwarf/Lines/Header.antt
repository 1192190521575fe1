-- ===== src/Dwarf/Lines/Header.antt =====
-- `ParsePrologue` and `CDWARFLineTable::parse` of dwarf/CDWARFDebugLine.cpp. `unset` is what locals hold
-- that are read before they have a value; `std::sort` is a parameter.
use mach_olib.Common.{
  ℕ, zero, suc, ◌+◌, ◌-◌, ◌%◌, ◌^◌, ◌==◌, ltb, leb, if◌then◌else◌, not, Bool, true, false, ◌&&◌,
  Option, none, some, List, [], ◌∷◌, ◌++◌,
}
use mach_olib.Io.Platform.{Platform}
use mach_olib.Io.Stream.{Device, Stream, Action, Width, w8, w16, w32, get, position, size}
use mach_olib.Io.Leb.{read_uleb128}
use mach_olib.Io.Text.{read_sz}
use mach_olib.Dwarf.FormValue.{c_string}
use mach_olib.Dwarf.Lines.{Prologue, Row, Machine, start}
use mach_olib.Dwarf.Lines.Decode.{FileNameEntry, LineState, decode_all}

-- `CDWARFPrologue`
pub record LineHeader : Type 0 where
  pub total_length : ℕ
  pub version : ℕ
  pub prologue_length : ℕ
  pub prologue : Prologue
  pub standard_opcode_lengths : List ℕ
  pub include_directories : List (List ℕ)
  pub file_names : List FileNameEntry

-- `CDWARFPrologue::CDWARFPrologue`
abbrev pub new_header : LineHeader
new_header = record {
  total_length = 0;
  version = 0;
  prologue_length = 0;
  prologue = record {
    min_inst_length = 0;
    default_is_stmt = false;
    line_base = 0;
    line_range = 0;
    opcode_base = 0;
  };
  standard_opcode_lengths = [];
  include_directories = [];
  file_names = [];
}

-- `getLength`
unfoldable pub prologue_size : LineHeader → ℕ
prologue_size h = (h.prologue_length + 4 + 2 + 4) % 2 ^ 32

-- `getStatementTableLength`
unfoldable pub statement_table_length : LineHeader → ℕ
unfolding prologue_size
statement_table_length h = (h.total_length + 4 + (2 ^ 32 - prologue_size h)) % 2 ^ 32

-- A signed byte, as the 32-bit pattern of the `int` that it is promoted to.
unfoldable pub promoted : ℕ → ℕ
promoted b = if ltb b 128 then b else b + (2 ^ 32 - 256)

-- `version >= 2 && version <= 4`
abbrev pub is_supported : ℕ → Bool
is_supported version = leb 2 version && leb version 4

module _ (p : Platform) {S : Type 0} (d : Device S) (unset : Width → ℕ) where
  -- `for (io::t_uint8 i = 1; i < opcode_base; ++i)`
  unfoldable pub read_lengths : ℕ → List ℕ → Action S (List ℕ)
  read_lengths zero lengths s = (lengths, s)
  read_lengths (suc n) lengths s =
      let (op_len, s') = get d w8 (unset w8) s in read_lengths n (lengths ++ (op_len ∷ [])) s'

  -- Both loops up to `end_prologue`. A round takes a byte at least, or reads the empty string.
  unfoldable pub read_directories : ℕ → ℕ → List (List ℕ) → Action S (List (List ℕ))
  unfolding c_string
  read_directories zero end_prologue dirs s = (dirs, s)
  read_directories (suc fuel) end_prologue dirs s =
      let (sz, s') = read_sz d 4096 s in
      let more = read_directories fuel end_prologue (dirs ++ (c_string sz ∷ [])) s' in
      if ltb (position d s) end_prologue
      then elim (c_string sz) [ [] ↦ (dirs, s') | _ ∷ _ ↦ more ]
      else (dirs, s)

  unfoldable pub read_files : ℕ → ℕ → List FileNameEntry → Action S (List FileNameEntry)
  unfolding c_string
  read_files zero end_prologue files s = (files, s)
  read_files (suc fuel) end_prologue files s =
      let (sz, s1) = read_sz d 4096 s in
      let ((_, dir_idx), s2) = read_uleb128 p d s1 in
      let ((_, mod_time), s3) = read_uleb128 p d s2 in
      let ((_, length), s4) = read_uleb128 p d s3 in
      let entry : FileNameEntry = record {
        name = c_string sz;
        dir_idx = dir_idx;
        mod_time = mod_time;
        length = length;
      } in
      let more = read_files fuel end_prologue (files ++ (entry ∷ [])) s4 in
      if ltb (position d s) end_prologue
      then elim (c_string sz) [ [] ↦ (files, s1) | _ ∷ _ ↦ more ]
      else (files, s)

  -- The fields behind the length of the prologue, and the tables.
  unfoldable pub read_tables : LineHeader → Action S LineHeader
  unfolding promoted
  read_tables h s =
      let end_prologue = (position d s % 2 ^ 32 + h.prologue_length) % 2 ^ 32 in
      let (min_inst_length, s1) = get d w8 0 s in
      let (_, ops) = get d w8 (unset w8) s1 in
      let s2 = if leb 4 h.version then ops else s1 in
      let (default_is_stmt, s3) = get d w8 0 s2 in
      let (line_base, s4) = get d w8 0 s3 in
      let (line_range, s5) = get d w8 0 s4 in
      let (opcode_base, s6) = get d w8 0 s5 in
      let (lengths, s7) = read_lengths (opcode_base - 1) [] s6 in
      let (dirs, s8) = read_directories (size d s7 + 1) end_prologue [] s7 in
      let (files, s9) = read_files (size d s8 + 1) end_prologue [] s8 in
      (
        record h {
          prologue = record {
            min_inst_length = min_inst_length;
            default_is_stmt = not (default_is_stmt == 0);
            line_base = promoted line_base;
            line_range = line_range;
            opcode_base = opcode_base;
          };
          standard_opcode_lengths = lengths;
          include_directories = dirs;
          file_names = files;
        },
        s9,
      )

  unfoldable pub parse_prologue : Action S LineHeader
  parse_prologue s =
      let (total_length, s1) = get d w32 0 s in
      let (version, s2) = get d w16 0 s1 in
      let begun : LineHeader = record new_header {
        total_length = total_length;
        version = version;
      } in
      let (prologue_length, s3) = get d w32 0 s2 in
      let whole = read_tables (record begun { prologue_length = prologue_length }) s3 in
      if is_supported version then whole else (begun, s2)

  -- `CDWARFLineTable::parse` of a new table, with the rounds that its loop may take, and `none` where
  -- they do not suffice: whether it succeeded, the prologue, and the registers with the rows sorted.
  unfoldable pub parse_line_table :
      (List Row → List Row) → ℕ → Stream S → Option ((Bool × LineHeader × Machine) × Stream S)
  parse_line_table sort fuel s =
      let (h, s1) = parse_prologue s in
      let end_offset = (position d s + h.total_length + 4) % 2 ^ 64 in
      let first : LineState = record { file_names = h.file_names; machine = start } in
      let decoded : Option ((Bool × LineHeader × Machine) × Stream S) =
        elim (decode_all p d unset h.prologue h.standard_opcode_lengths fuel end_offset first s1) [
          | none ↦ none
          | some (l, s2) ↦ some (
            (
              true,
              record h { file_names = l.file_names },
              record l.machine { rows = sort l.machine.rows },
            ),
            s2,
          )
        ] in
      if is_supported h.version
      then decoded
      else some ((false, h, record start { rows = sort start.rows }), s1)
