-- ===== src/Dwarf/Units/Table.antt =====
-- dwarf/CDWARFCompileUnitTable.h and dwarf/CDWARFCompileUnitTable.cpp: the compile units of a section.
-- A pointer to a unit of the table is its index; `std::sort` is a parameter. `rounds` is what the loop
-- over the entries of one unit may take, and `none` is what comes where it does not suffice.
use mach_olib.Common.{
  ℕ, zero, suc, ◌+◌, ◌%◌, ◌^◌, ◌==◌, ltb, not, if◌then◌else◌, Bool, true, Option, none, some, List,
  [], ◌∷◌, ◌++◌, get_elem?, length,
}
use mach_olib.Io.Platform.{Platform}
use mach_olib.Io.Stream.{Device, Stream, Width, position, size, seek}
use mach_olib.Dwarf.Abbreviations.{Table}
use mach_olib.Dwarf.Entries.{DebugInfoEntry}
use mach_olib.Dwarf.Entries.Getters.{
  invalid_address, get_abstract_origin, get_decl_file, get_object_pointer, get_specification,
}
use mach_olib.Dwarf.Units.{CompileUnit, new_unit, die_by_offset}
use mach_olib.Dwarf.Units.Reading.{parse_unit}

-- `CompileUnitNode`
pub record UnitNode : Type 0 where
  pub offset : ℕ
  pub cu : CompileUnit

-- The loop of `getCompileUnitBy`, which does not stop at the first unit with the offset.
unfoldable pub last_unit : ℕ → ℕ → Option ℕ → List UnitNode → Option ℕ
last_unit cu_offset i ret [] = ret
last_unit cu_offset i ret (n ∷ nodes) =
    last_unit cu_offset (i + 1) (if n.offset == cu_offset then some i else ret) nodes

unfoldable pub compile_unit_by : ℕ → List UnitNode → Option ℕ
unfolding last_unit
compile_unit_by cu_offset units = last_unit cu_offset 0 none units

module _ (p : Platform) {T : Type 0} (debug_str : Device T) {S : Type 0} (d : Device S)
    (unset : Width → ℕ) (rounds : ℕ) (table : Table) where
  -- `extract`: whether it appended a unit, and the table.
  unfoldable pub extract_unit :
      List UnitNode → Stream T → Stream S → Option (Bool × List UnitNode × Stream T × Stream S)
  extract_unit units strings s =
      elim (parse_unit p debug_str d unset rounds table new_unit strings s) [
        | none ↦ none
        | some (good, cu, strings', s') ↦
            let node : UnitNode = record { offset = position d s; cu = cu } in
            some ((good, (if good then units ++ (node ∷ []) else units), strings', s'))
      ]

  -- `extractCompileUnitBy`: the index of the unit, if there is one.
  unfoldable pub extract_unit_by :
      ℕ
      → List UnitNode
      → Stream T
      → Stream S
      → Option (Option ℕ × List UnitNode × Stream T × Stream S)
  extract_unit_by cu_offset units strings s =
      let (_, moved) = seek d cu_offset s in
      let fresh : Option (Option ℕ × List UnitNode × Stream T × Stream S) =
        elim (extract_unit units strings moved) [
          | none ↦ none
          | some (good, units', strings', s') ↦
              some ((if good then some (length units) else none), units', strings', s')
        ] in
      elim (compile_unit_by cu_offset units) [
        | some i ↦ some (some i, units, strings, s)
        | none ↦ fresh
      ]

  -- The loop of `parse`, before the table is sorted. The seek goes behind the unit that was appended.
  unfoldable pub read_units :
      ℕ → List UnitNode → Stream T → Stream S → Option (List UnitNode × Stream T × Stream S)
  read_units zero units strings s = none
  read_units (suc fuel) units strings s =
      let step : Option (List UnitNode × Stream T × Stream S) =
        elim (extract_unit units strings s) [
          | none ↦ none
          | some (good, units', strings', s') ↦
              let appended : ℕ = elim (get_elem? units' (length units)) [
                | none ↦ 0
                | some n ↦ n.cu.length
              ] in
              let next = (position d s + appended + 4) % 2 ^ 64 in
              let more = read_units fuel units' strings' (seek d next s').1 in
              if good then more else some (units', strings', s')
        ] in
      if ltb (position d s) (size d s) then step else some (units, strings, s)

  -- `parse`, which returns true.
  unfoldable pub parse_units :
      (List UnitNode → List UnitNode)
      → ℕ
      → Stream T
      → Stream S
      → Option (Bool × List UnitNode × Stream T × Stream S)
  parse_units sort fuel strings s = elim (read_units fuel [] strings s) [
    | none ↦ none
    | some (units, strings', s') ↦ some (true, sort units, strings', s')
  ]

-- `findDeclaration`, with the rounds that its loop may take: the entry where the function is declared,
-- `some none` for NULL, and `none` where the rounds do not suffice. The offsets are those of a unit,
-- moved by the offset of the unit itself.
unfoldable pub find_declaration :
    Platform → ℕ → UnitNode → DebugInfoEntry → Option (Option DebugInfoEntry)
find_declaration p zero owner cur = none
find_declaration p (suc fuel) owner cur =
    let follow : ℕ → Option (Option DebugInfoEntry) = λ off.
      elim (die_by_offset ((off + owner.offset) % 2 ^ 64) owner.cu) [
        | none ↦ some none
        | some entry ↦ find_declaration p fuel owner entry
      ] in
    let spec = get_specification p invalid_address cur in
    let obj = get_object_pointer p invalid_address cur in
    let of_subprogram : Option (Option DebugInfoEntry) =
      if not (get_decl_file p invalid_address cur == invalid_address)
      then some (some cur)
      else if not (spec == invalid_address)
      then follow spec
      else if not (obj == invalid_address)
      then follow obj
      else some none in
    if cur.tag == 0x1d
    then follow (get_abstract_origin p invalid_address cur)
    else if cur.tag == 0x2e
    then of_subprogram
    else some (some cur)
