-- ===== src/Dwarf/Units/Addresses.antt =====
-- `getDIEBy` and `getDIEIdxsBy` of dwarf/CDWARFCompileUnit.cpp: the entries of a unit that hold an
-- address. `range_resolver` finds a set of ranges and changes its table, which is its state `R`.
use mach_olib.Common.{
  ℕ, zero, suc, ◌+◌, ◌==◌, if◌then◌else◌, Bool, false, Option, none, some, List, [], ◌∷◌, ◌++◌,
  length,
}
use mach_olib.Io.Platform.{Platform}
use mach_olib.Io.Stream.{Device, Stream, Width}
use mach_olib.Dwarf.Ranges.{RangeSet}
use mach_olib.Dwarf.Abbreviations.{Table}
use mach_olib.Dwarf.Entries.{DebugInfoEntry}
use mach_olib.Dwarf.Entries.Getters.{is_empty, is_in_range}
use mach_olib.Dwarf.Units.{Node, CompileUnit, die_by_idx}
use mach_olib.Dwarf.Units.Tree.{all_children_idxs}
use mach_olib.Dwarf.Units.Reading.{full_extract}

module _ (p : Platform) {R : Type 0} (range_resolver : ℕ → R → Option RangeSet × R) where
  -- The loop of `getDIEBy`, with the indices in place of the pointers.
  unfoldable pub dies_from : ℕ → CompileUnit → ℕ → List Node → R → List ℕ × R
  dies_from address u i [] ranges = ([], ranges)
  dies_from address u i (n ∷ nodes) ranges =
      let (inside, ranges') =
        is_in_range p range_resolver address u.base_address u.version n.die ranges in
      let (others, ranges'') = dies_from address u (i + 1) nodes ranges' in
      ((if inside then i ∷ others else others), ranges'')

  unfoldable pub die_by : ℕ → CompileUnit → R → List ℕ × R
  die_by address u ranges = dies_from address u 0 u.entries ranges

  module _ {T : Type 0} (debug_str : Device T) {S : Type 0} (d : Device S) (unset : Width → ℕ)
      (table : Table) where
    -- Whether the entry at an index holds the address.
    unfoldable pub holds : ℕ → ℕ → CompileUnit → R → Bool × R
    holds address idx u ranges = elim (die_by_idx idx u) [
      | none ↦ (false, ranges)
      | some die ↦ is_in_range p range_resolver address u.base_address u.version die ranges
    ]

    -- The loop over the entries below a subprogram: `DW_TAG_inlined_subroutine` is 0x1d.
    unfoldable pub inlined_from :
        ℕ → List ℕ → CompileUnit → R → Stream S → List ℕ × CompileUnit × R × Stream S
    inlined_from address [] u ranges s = ([], u, ranges, s)
    inlined_from address (j ∷ idxs) u ranges s =
        let ((read, u'), s') = full_extract p debug_str d unset j table u s in
        let (inside, ranges') = holds address j u' ranges in
        let untouched = inlined_from address idxs u ranges s in
        let failed = inlined_from address idxs u' ranges s' in
        let (more, u'', ranges'', s'') = inlined_from address idxs u' ranges' s' in
        elim (die_by_idx j u) [
          | none ↦ untouched
          | some info ↦
              if info.tag == 0x1d
              then (if read
                  then ((if inside then j ∷ more else more), u'', ranges'', s'')
                  else failed)
              else untouched
        ]

    -- The entry at an index, read whole if it was not.
    unfoldable pub filled : ℕ → DebugInfoEntry → CompileUnit → Stream S → CompileUnit × Stream S
    filled i die u s =
        let ((_, u'), s') = full_extract p debug_str d unset i table u s in
        if is_empty die then (u', s') else (u, s)

    -- The loop of `getDIEIdxsBy` over the `n` entries from `i` on: `DW_TAG_subprogram` is 0x2e.
    unfoldable pub subprograms_from :
        ℕ → ℕ → ℕ → CompileUnit → R → Stream S → List ℕ × CompileUnit × R × Stream S
    subprograms_from address i zero u ranges s = ([], u, ranges, s)
    subprograms_from address i (suc n) u ranges s = elim (die_by_idx i u) [
      | none ↦ ([], u, ranges, s)
      | some die ↦
          let next = subprograms_from address (i + 1) n in
          let (u1, s1) = filled i die u s in
          let (inside, ranges1) = holds address i u1 ranges in
          let (below, u2, ranges2, s2) =
            inlined_from address (all_children_idxs i u1) u1 ranges1 s1 in
          let (others, u3, ranges3, s3) = next u2 ranges2 s2 in
          let outside = next u1 ranges1 s1 in
          if die.tag == 0x2e
          then (if inside then (i ∷ (below ++ others), u3, ranges3, s3) else outside)
          else next u ranges s
    ]

    unfoldable pub die_idxs_by :
        ℕ → CompileUnit → R → Stream S → List ℕ × CompileUnit × R × Stream S
    die_idxs_by address u ranges s = subprograms_from address 0 (length u.entries) u ranges s
