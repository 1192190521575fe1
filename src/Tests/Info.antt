-- ===== src/Tests/Info.antt =====
-- Runs of the form values, the abbreviations and the compile units.
use mach_olib.Common.{
  ℕ, zero, suc, ◌+◌, ◌≤◌, ◌≡◌, refl, arith, inl, inr, some, none-some, some-injective, true, false,
  List, [], ◌∷◌, ◌++◌, ap, sym, get_elem?,
}
use mach_olib.Tests.{zeroed, memory_of-IsValid, stream_of}
use mach_olib.Io.Stream.{Width, w8, position, size, get, t_read, le_read, le_result, le_image, read}
use mach_olib.Io.Stream.Laws.{rest, IsOpen}
use mach_olib.Io.Memory.{memory_device, read_memory}
use mach_olib.Io.Memory.Laws.{memory_reader}
use mach_olib.Io.Leb.Groups.{leb_bytes}
use mach_olib.Io.Leb.Images.{uleb_image}
use mach_olib.Dwarf.Forms.{block1, string, type_of, convert_form_to_type}
use mach_olib.Dwarf.FormValue.{
  Layout, word, install, of_form, copied, parse, parse_loop, parse_form, parse_word, parse_block,
  as_uint64,
}
use mach_olib.Dwarf.FormValue.Skip.{skip}
use mach_olib.Dwarf.FormValue.Agreement.{IsLayout, Agrees}
use mach_olib.Dwarf.FormValue.Skipping.{skip-parse}
use mach_olib.Dwarf.FormValue.Images.{Parsed, size_word, in_block1, parse-image}
use mach_olib.Dwarf.FormValue.Tagged.{IsTagged, for_form, copy_of, made-IsTagged}
use mach_olib.Dwarf.Abbreviations.{get_declaration, parse_table}
use mach_olib.Dwarf.Abbreviations.Images.{
  Written, IsWritten, declarations_image, declaration_image, attributes_image, first_with,
}
use mach_olib.Dwarf.Abbreviations.Lookup.{get_declaration-parse_table}
use mach_olib.Dwarf.Entries.{new_entry}
use mach_olib.Dwarf.Units.{Node, CompileUnit, new_unit}
use mach_olib.Dwarf.Units.Tree.{parents_idxs}
use mach_olib.Dwarf.Units.Tree.Parents.{IsTree, IsChain, parents_idxs-IsChain}

abbrev layout : Layout
layout = record { addr_size = 8; dwarf_format = 32; dwarf_version = 4 }

layout-IsLayout : IsLayout layout
layout-IsLayout = record { addresses = inr refl; format = inl refl }

-- What locals hold that have no value yet.
abbrev odd_values : Width → ℕ
odd_values _ = 0x77

-- A block of two bytes, and a byte behind it.
abbrev block_bytes : List ℕ
block_bytes = 2 ∷ 0xaa ∷ 0xbb ∷ 0xcc ∷ []

block_bytes-IsOpen : IsOpen memory_device memory_reader (stream_of block_bytes)
unfolding memory_reader
block_bytes-IsOpen = memory_of-IsValid block_bytes (omega arith)

-- `parse` reads the size and the block, and leaves the last byte.
block_end :
    position memory_device
      (parse zeroed memory_device layout (of_form block1) (stream_of block_bytes)).1
    ≡ 3
unfolding position size parse parse_loop parse_form parse_word parse_block as_uint64 of_form
    memory_device read_memory get t_read le_read le_result read
block_end = refl

skip-parse_example :
    Agrees zeroed memory_device memory_reader layout odd_values
      (skip zeroed memory_device layout odd_values block1 (stream_of block_bytes))
      (parse zeroed memory_device layout (of_form block1) (stream_of block_bytes))
skip-parse_example =
    skip-parse zeroed memory_device memory_reader layout odd_values layout-IsLayout block1
      (stream_of block_bytes) block_bytes-IsOpen
      (unfold size in unfold memory_device in omega arith)
      (unfold size in unfold memory_device in omega (arith, block_end))

-- A block of two bytes, its size in one byte.
parse-image_example :
    Parsed memory_device memory_reader true block1 2
      (7 ∷ 8 ∷ 9 ∷ [])
      (parse zeroed memory_device layout (of_form block1) (stream_of (2 ∷ 7 ∷ 8 ∷ 9 ∷ [])))
unfolding of_form type_of install convert_form_to_type memory_device memory_reader le_image
parse-image_example =
    parse-image zeroed memory_device memory_reader layout true block1 2 (2 ∷ []) (7 ∷ 8 ∷ 9 ∷ [])
      (word 0) (stream_of (2 ∷ 7 ∷ 8 ∷ 9 ∷ [])) (size_word block1 w8 2 in_block1 (omega arith))
      (memory_of-IsValid (2 ∷ 7 ∷ 8 ∷ 9 ∷ []) (omega arith)) (unfold size in omega arith) refl

-- A copy of a value with a string.
made-IsTagged_example : IsTagged (copied zeroed (of_form string))
made-IsTagged_example =
    made-IsTagged zeroed (copied zeroed (of_form string))
      (copy_of (of_form string) (for_form string))

-- Two declarations with the same code, and the zero behind them.
abbrev first_written : Written
first_written = record { code = 1; tag = 0x11; children = 1; attributes = (0x03, 0x0e) ∷ [] }

abbrev second_written : Written
second_written = record { code = 1; tag = 0x2e; children = 0; attributes = [] }

abbrev written : List Written
written = first_written ∷ second_written ∷ []

first_written-IsWritten : IsWritten first_written
first_written-IsWritten = record {
  code_positive = omega arith;
  code_bound = omega arith;
  tag_positive = omega arith;
  tag_bound = omega arith;
  attributes_fit = ((omega arith, omega arith, omega arith, omega arith), tt);
}

second_written-IsWritten : IsWritten second_written
second_written-IsWritten = record {
  code_positive = omega arith;
  code_bound = omega arith;
  tag_positive = omega arith;
  tag_bound = omega arith;
  attributes_fit = tt;
}

abbrev abbrev_bytes : List ℕ
abbrev_bytes = 1 ∷ 0x11 ∷ 1 ∷ 3 ∷ 0x0e ∷ 0 ∷ 0 ∷ 1 ∷ 0x2e ∷ 0 ∷ 0 ∷ 0 ∷ 0 ∷ []

abbrev_bytes-IsOpen : IsOpen memory_device memory_reader (stream_of abbrev_bytes)
unfolding memory_reader
abbrev_bytes-IsOpen = memory_of-IsValid abbrev_bytes (omega arith)

abbrev_rest :
    rest memory_device memory_reader (stream_of abbrev_bytes)
    ≡ declarations_image written ++ (uleb_image 0 ++ [])
unfolding memory_reader memory_device declarations_image declaration_image attributes_image
    uleb_image leb_bytes
abbrev_rest = refl

get_declaration-parse_table_example :
    let ((ret_code, table), s') = parse_table zeroed memory_device [] (stream_of abbrev_bytes) in
    (get_declaration 1 table ≡ first_with 1 written)
    × (rest memory_device memory_reader s' ≡ [])
    × (ret_code ≡ false)
get_declaration-parse_table_example =
    get_declaration-parse_table zeroed memory_device memory_reader written 1 []
      (stream_of abbrev_bytes) (first_written-IsWritten, (second_written-IsWritten, tt))
      abbrev_bytes-IsOpen abbrev_rest

abbrev node : ℕ → Node
node depth = record { offset = 0; die = new_entry; depth = depth }

-- A unit, a subprogram in it, a block in that, and another subprogram.
abbrev four_nodes : CompileUnit
four_nodes = record new_unit { entries = node 0 ∷ node 1 ∷ node 2 ∷ node 1 ∷ [] }

four_nodes-IsTree : IsTree four_nodes.entries
four_nodes-IsTree = record {
  root = λ n e. ap (λ (x : Node). x.depth) (sym (some-injective e));
  step = steps;
}
  where
    steps :
        (i : ℕ) (m n : Node)
        → get_elem? four_nodes.entries i ≡ some m
        → get_elem? four_nodes.entries (suc i) ≡ some n
        → n.depth ≤ m.depth + 1
    steps zero m n e f = omega (
      arith,
      ap (λ (x : Node). x.depth) (some-injective e),
      ap (λ (x : Node). x.depth) (some-injective f),
    )
    steps (suc zero) m n e f = omega (
      arith,
      ap (λ (x : Node). x.depth) (some-injective e),
      ap (λ (x : Node). x.depth) (some-injective f),
    )
    steps (suc (suc zero)) m n e f = omega (
      arith,
      ap (λ (x : Node). x.depth) (some-injective e),
      ap (λ (x : Node). x.depth) (some-injective f),
    )
    steps (suc (suc (suc i))) m n e f = absurd (none-some f)

parents_idxs-IsChain_example : IsChain four_nodes.entries 2 (node 2) (parents_idxs 2 four_nodes)
parents_idxs-IsChain_example = parents_idxs-IsChain four_nodes 2 (node 2) four_nodes-IsTree refl

-- The header of a unit that says that 16 bytes follow its length, where 7 do.
abbrev header_bytes : List ℕ
header_bytes = 16 ∷ 0 ∷ 0 ∷ 0 ∷ 4 ∷ 0 ∷ 0 ∷ 0 ∷ 0 ∷ 0 ∷ 8 ∷ []
