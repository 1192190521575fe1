-- ===== src/Tests/Dwarf.antt =====
-- Runs of the lookups of the debugging information, and of a line program.
use mach_olib.Common.{
  ℕ, zero, suc, partition_point, ◌<◌, ◌≡◌, ◌≢◌, refl, ap, arith, true, false, none, some, inr, sym,
  ◌+◌, length, none-some, some-injective, List, [], ◌∷◌, ◌++◌, All, get_elem?,
}
use mathlib.Core.List.{append-nil}
use mach_olib.Tests.{zeroed, memory_of-IsValid, stream_of}
use mach_olib.Io.Codec.{le_encode}
use mach_olib.Io.Stream.{Stream, Width, w16, w32, w64, little_endian, le_image, position}
use mach_olib.Io.Stream.Laws.{rest, IsOpen}
use mach_olib.Io.Stream.Images.{image}
use mach_olib.Io.Memory.{Memory, memory_device}
use mach_olib.Io.Memory.Laws.{memory_reader}
use mach_olib.Dwarf.Lines.Decode.{LineState, decode_all}
use mach_olib.Dwarf.Lines.Decode.Codes.{code_special, code_address64, code_end_sequence}
use mach_olib.Dwarf.Lines.Decode.Rounds.{IsProgram, done, next, Runs, decode_all-run_all}
use mach_olib.Dwarf.Lines.Header.{new_header, parse_line_table}
use mach_olib.Dwarf.Lines.Versions.{parse_line_table_unsupported}
use mach_olib.Dwarf.Aranges.{Range, contains, range_at, get_ranges_by}
use mach_olib.Dwarf.Aranges.Lookup.{
  Disjoint, Contains, get_ranges_by-Contains, get_ranges_by_sound, get_ranges_by_boundary,
}
use mach_olib.Dwarf.Aranges.Sets.{first_tuple}
use mach_olib.Dwarf.Aranges.Sets.Alignment.{IsAligned, first_tuple-IsAligned}
use mach_olib.Dwarf.Ranges.{Entry, any_contains}
use mach_olib.Dwarf.Ranges.Lookup.{Somewhere, any_contains-Somewhere}
use mach_olib.Dwarf.Lines.{
  Prologue, Row, first_row, reset, start, Opcode, special, set_address, end_sequence, run_all,
  lookup_address,
}
use mach_olib.Dwarf.Lines.Lookup.{lookup_address_exact, lookup_address_between}
use mach_olib.Dwarf.Lines.Sequences.{begun, InBounds, run_all-end_sequence, run_all-InBounds}

abbrev lower_range : Range
lower_range = record { begin = 0x10; end = 0x20; cu_offset = 0 }

abbrev upper_range : Range
upper_range = record { begin = 0x20; end = 0x30; cu_offset = 0x80 }

abbrev two_ranges : List Range
two_ranges = lower_range ∷ upper_range ∷ []

two_ranges-Disjoint : Disjoint two_ranges
two_ranges-Disjoint zero zero x y e f h = absurd (omega arith)
two_ranges-Disjoint zero (suc zero) x y e f h = omega (
  arith,
  ap (λ (r : Range). r.end) (some-injective e),
  ap (λ (r : Range). r.begin) (some-injective f),
)
two_ranges-Disjoint zero (suc (suc j)) x y e f h = absurd (none-some f)
two_ranges-Disjoint (suc zero) zero x y e f h = absurd (omega arith)
two_ranges-Disjoint (suc zero) (suc zero) x y e f h = absurd (omega arith)
two_ranges-Disjoint (suc zero) (suc (suc j)) x y e f h = absurd (none-some f)
two_ranges-Disjoint (suc (suc i)) j x y e f h = absurd (none-some e)

no_end : (j : ℕ) (x : Range) → get_elem? two_ranges j ≡ some x → x.end ≢ 0x28
no_end zero x e = λ k. omega (arith, k, ap (λ (r : Range). r.end) (some-injective e))
no_end (suc zero) x e = λ k. omega (arith, k, ap (λ (r : Range). r.end) (some-injective e))
no_end (suc (suc j)) x e = absurd (none-some e)

get_ranges_by-Contains_example : get_ranges_by two_ranges 0x28 ≡ some upper_range
get_ranges_by-Contains_example =
    get_ranges_by-Contains two_ranges 1 0x28 upper_range ((omega arith, tt), (tt, tt))
      two_ranges-Disjoint refl (record { from = omega arith; below = omega arith }) no_end

found_upper : get_ranges_by two_ranges 0x28 ≡ some upper_range
unfolding get_ranges_by range_at contains partition_point
found_upper = refl

get_ranges_by_sound_example : Contains upper_range 0x28
get_ranges_by_sound_example = get_ranges_by_sound two_ranges 0x28 upper_range found_upper

get_ranges_by_boundary_example : get_ranges_by two_ranges 0x20 ≡ none
get_ranges_by_boundary_example =
    get_ranges_by_boundary two_ranges 0 lower_range upper_range ((omega arith, tt), (tt, tt))
      two_ranges-Disjoint refl refl (omega arith) refl

abbrev row_at : ℕ → Row
row_at a = record first_row { address = a }

abbrev two_rows : List Row
two_rows = row_at 0x100 ∷ row_at 0x108 ∷ []

-- Nothing stands before the first row.
none_before : (j : ℕ) (z : Row) → get_elem? two_rows j ≡ some z → j < 0 → z.address < 0x100
none_before j z e h = absurd (omega arith)

lookup_address_exact_example : lookup_address 0x100 two_rows ≡ 0
lookup_address_exact_example =
    lookup_address_exact two_rows 0 (row_at 0x100) (omega arith) ((omega arith, tt), (tt, tt)) refl
      none_before

lookup_address_between_example : lookup_address 0x104 two_rows ≡ 0
lookup_address_between_example =
    lookup_address_between two_rows 0 0x104 (row_at 0x100) (row_at 0x108) (omega arith)
      ((omega arith, tt), (tt, tt)) refl refl (omega arith) (omega arith)

-- A prologue as compilers write it: one byte per instruction, lines from -5 on.
abbrev usual : Prologue
usual = record {
  min_inst_length = 1;
  default_is_stmt = true;
  line_base = 0xFFFFFFFB;
  line_range = 14;
  opcode_base = 13;
}

abbrev first_part : List Opcode
first_part = set_address 0x100 ∷ special 20 ∷ []

abbrev second_part : List Opcode
second_part = set_address 0x200 ∷ special 75 ∷ end_sequence ∷ []

run_all-end_sequence_example :
    (run_all zeroed usual (first_part ++ (end_sequence ∷ second_part)) start).rows
    ≡ (run_all zeroed usual (first_part ++ (end_sequence ∷ [])) start).rows
      ++ (run_all zeroed usual second_part (begun (reset true first_row))).rows
run_all-end_sequence_example = run_all-end_sequence zeroed usual first_part second_part start

run_all-InBounds_example :
    All
      (InBounds (run_all zeroed usual second_part start))
      (run_all zeroed usual second_part start).rows
run_all-InBounds_example = run_all-InBounds zeroed usual second_part start (tt, (tt, (tt, tt))) tt

first_tuple-IsAligned_example : IsAligned 12 8 0 (first_tuple 12 12 8 0)
first_tuple-IsAligned_example = first_tuple-IsAligned 12 8 (omega arith)

abbrev an_entry : Entry
an_entry = record { start_address = 4; end_address = 8 }

any_contains-Somewhere_example :
    (any_contains 0x100 0x105 (an_entry ∷ []) ≡ true → Somewhere 0x100 0x105 (an_entry ∷ []))
    × (Somewhere 0x100 0x105 (an_entry ∷ []) → any_contains 0x100 0x105 (an_entry ∷ []) ≡ true)
any_contains-Somewhere_example = any_contains-Somewhere 0x100 0x105 (an_entry ∷ [])

-- The bytes of an address, a special opcode and the end of a sequence.
abbrev program : List Opcode
program = set_address 0x100 ∷ special 20 ∷ end_sequence ∷ []

abbrev program_bytes : List ℕ
program_bytes =
    (0 ∷ 9 ∷ 2 ∷ image little_endian w64 0x100) ++ ((20 ∷ []) ++ ((0 ∷ 1 ∷ 1 ∷ []) ++ []))

program_bytes-IsProgram : IsProgram little_endian 13 program program_bytes
program_bytes-IsProgram =
    next (set_address 0x100) (special 20 ∷ end_sequence ∷ [])
      (0 ∷ 9 ∷ 2 ∷ image little_endian w64 0x100) ((20 ∷ []) ++ ((0 ∷ 1 ∷ 1 ∷ []) ++ []))
      (code_address64 0x100 (omega arith))
      (next (special 20) (end_sequence ∷ []) (20 ∷ []) ((0 ∷ 1 ∷ 1 ∷ []) ++ [])
        (code_special 20 (omega arith))
        (next end_sequence [] (0 ∷ 1 ∷ 1 ∷ []) [] code_end_sequence done))

program_length : length program_bytes ≡ 15
unfolding le_image le_encode
program_length = refl

program_bytes-IsOpen : IsOpen memory_device memory_reader (stream_of program_bytes)
unfolding memory_reader
program_bytes-IsOpen = memory_of-IsValid program_bytes (omega (arith, program_length))

program_rest : rest memory_device memory_reader (stream_of program_bytes) ≡ program_bytes ++ []
unfolding memory_reader memory_device
program_rest = sym (append-nil program_bytes)

program_end : position memory_device (stream_of program_bytes) + length program_bytes ≡ 15
unfolding memory_device position
program_end = omega (arith, program_length)

abbrev no_files : LineState
no_files = record { file_names = []; machine = start }

-- What locals hold that have no value yet.
abbrev odd_values : Width → ℕ
odd_values _ = 0x77

decode_all-run_all_example :
    Runs zeroed memory_device memory_reader odd_values usual []
      (record no_files { machine = run_all zeroed usual program start })
      []
      (stream_of program_bytes)
      (decode_all zeroed memory_device odd_values usual [] 4 15 no_files (stream_of program_bytes))
decode_all-run_all_example =
    decode_all-run_all zeroed memory_device memory_reader odd_values usual [] program program_bytes
      [] 4 15 no_files (stream_of program_bytes) (omega arith) (omega arith) program_bytes-IsProgram
      program_bytes-IsOpen program_rest program_end (omega arith)

abbrev version_bytes : List ℕ
version_bytes = 40 ∷ 0 ∷ 0 ∷ 0 ∷ 5 ∷ 0 ∷ []

version_bytes-IsOpen : IsOpen memory_device memory_reader (stream_of version_bytes)
unfolding memory_reader
version_bytes-IsOpen = memory_of-IsValid version_bytes (omega arith)

version_rest :
    rest memory_device memory_reader (stream_of version_bytes)
    ≡ image little_endian w32 40 ++ (image little_endian w16 5 ++ [])
unfolding memory_reader memory_device le_image le_encode
version_rest = refl

parse_line_table_unsupported_example :
    (t : Stream Memory) × (parse_line_table zeroed memory_device odd_values
        (λ rows. rows)
        3
        (stream_of version_bytes)
      ≡ some (
        (false, record new_header { total_length = 40; version = 5 }, record start { rows = [] }),
        t,
      ))
    × (rest memory_device memory_reader t ≡ [])
    × IsOpen memory_device memory_reader t
parse_line_table_unsupported_example =
    parse_line_table_unsupported zeroed memory_device memory_reader odd_values (λ rows. rows) 3 40 5
      [] (stream_of version_bytes) (omega arith) (omega arith) (inr (omega arith))
      version_bytes-IsOpen version_rest
