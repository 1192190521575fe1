-- ===== src/Dwarf/Aranges.antt =====
-- dwarf/CDWARFArangeTable.h and dwarf/CDWARFArangeTable.cpp: the address ranges of the compile units,
-- sorted by their ends, and the lookup of an address in them.
pub mod Lookup
pub mod Sets
use mach_olib.Common.{
  ℕ, ◌-◌, ◌==◌, ltb, leb, if◌then◌else◌, Bool, ◌&&◌, Option, none, some, List, get_elem?, length,
  lower_bound,
}

-- `CDWARFRange`, ordered by `end`
pub record Range : Type 0 where
  pub begin : ℕ
  pub end : ℕ
  pub cu_offset : ℕ

unfoldable pub contains : Range → ℕ → Bool
contains r address = leb r.begin address && ltb address r.end

-- `if(address >= (*it).begin && address < (*it).end)`, at an index of the table
unfoldable pub range_at : List Range → ℕ → ℕ → Option Range
unfolding contains
range_at ranges it address = elim (get_elem? ranges it) [
  | none ↦ none
  | some r ↦ if contains r address then some r else none
]

-- `CDWARFArangeTable::getRangesBy`
unfoldable pub get_ranges_by : List Range → ℕ → Option Range
unfolding range_at
get_ranges_by ranges address =
    let it = lower_bound (λ r. r.end) address ranges in
    let there = range_at ranges it address in
    let before = if it == 0 then it else it - 1 in
    if it == length ranges
    then none
    else elim there [ some r ↦ some r | none ↦ range_at ranges before address ]
