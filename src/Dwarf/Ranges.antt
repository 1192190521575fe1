-- ===== src/Dwarf/Ranges.antt =====
-- dwarf/CDWARFRangeTable.h and dwarf/CDWARFRangeTable.cpp: the lists of address ranges, and the table of
-- them, sorted by their offsets. A pointer to a set in the table is the set. `std::sort` is a parameter.
pub mod Lookup
use mach_olib.Common.{
  ℕ, zero, suc, ◌+◌, ◌-◌, ◌%◌, ◌^◌, ◌==◌, ltb, leb, if◌then◌else◌, Bool, true, false, not, ◌&&◌,
  ◌||◌, Option, none, some, List, [], ◌∷◌, ◌++◌, get_elem?, take, drop, length, lower_bound,
}
use mach_olib.Io.Stream.{Device, Stream, Width, w32, w64, bytes_of, size, position, seek, t_read}

-- `CDWARFRangeListEntry`
pub record Entry : Type 0 where
  pub start_address : ℕ
  pub end_address : ℕ

unfoldable pub is_end_of_list_entry : Entry → Bool
is_end_of_list_entry e = e.start_address == 0 && e.end_address == 0

unfoldable pub is_base_address_selection_entry : ℕ → Entry → Bool
is_base_address_selection_entry address_size e =
    if address_size == 4 then e.start_address == 2 ^ 32 - 1 else e.start_address == 2 ^ 64 - 1

-- The sums are 64-bit.
unfoldable pub entry_contains : ℕ → ℕ → Entry → Bool
entry_contains base address e =
    leb ((base + e.start_address) % 2 ^ 64) address && ltb address ((base + e.end_address) % 2 ^ 64)

pub record RangeSet : Type 0 where
  pub offset : ℕ
  pub collection : List Entry

-- The loop of `RangeSet::containsAddress`, which stops at the first entry that contains the address.
unfoldable pub any_contains : ℕ → ℕ → List Entry → Bool
any_contains base address [] = false
any_contains base address (e ∷ es) =
    let others = any_contains base address es in
    if entry_contains base address e then true else others

-- `CDWARFRangeTable::getRangeBy`
unfoldable pub get_range_by : ℕ → List RangeSet → Option RangeSet
get_range_by offset table = elim (get_elem? table (lower_bound (λ s. s.offset) offset table)) [
  | none ↦ none
  | some set ↦ if set.offset == offset then some set else none
]

unfoldable pub insert_set : RangeSet → List RangeSet → List RangeSet
insert_set set table =
    let i = lower_bound (λ s. s.offset) set.offset table in take i table ++ (set ∷ drop i table)

module _ {S : Type 0} (d : Device S) where
  -- The loop of `extract`, on addresses of one width. A round reads at least one byte, or ends the loop.
  unfoldable pub extract_loop : Width → ℕ → List Entry → Stream S → List Entry × Stream S
  extract_loop w zero collection s = (collection, s)
  extract_loop w (suc fuel) collection s =
      let ((n, begin), s') = t_read d w 0 s in
      let ((m, end), s'') = t_read d w 0 s' in
      let entry : Entry = record { start_address = begin; end_address = end } in
      let again = extract_loop w fuel (collection ++ (entry ∷ [])) s'' in
      if not (ltb (position d s) (size d s))
      then (collection, s)
      else if not (n == bytes_of w)
      then (collection, s')
      else if not (m == bytes_of w)
      then (collection, s'')
      else if is_end_of_list_entry entry
      then (collection, s'')
      else again

  unfoldable pub extract_set :
      Width → List RangeSet → Stream S → Option RangeSet × List RangeSet × Stream S
  extract_set w table s =
      let (collection, s') = extract_loop w (size d s) [] s in
      let curset : RangeSet = record { offset = position d s; collection = collection } in
      (some curset, insert_set curset table, s')

  -- `CDWARFRangeTable::extract`
  unfoldable pub extract : ℕ → List RangeSet → Stream S → Option RangeSet × List RangeSet × Stream S
  extract address_size table s =
      let four = extract_set w32 table s in
      let eight = extract_set w64 table s in
      if address_size == 4 then four else if address_size == 8 then eight else (none, table, s)

  -- `CDWARFRangeTable::extractRangeSetBy`
  unfoldable pub extract_range_set_by :
      ℕ → ℕ → List RangeSet → Stream S → Option RangeSet × List RangeSet × Stream S
  extract_range_set_by address_size offset table s =
      let there = extract address_size table (seek d offset s).1 in
      elim (get_range_by offset table) [ some set ↦ (some set, table, s) | none ↦ there ]

  -- The loop of `CDWARFRangeTable::parse`, which begins with an empty table.
  unfoldable pub parse_loop : ℕ → ℕ → List RangeSet → Stream S → List RangeSet × Stream S
  parse_loop address_size zero table s = (table, s)
  parse_loop address_size (suc fuel) table s =
      let (set, table', s') = extract address_size table s in
      let again = parse_loop address_size fuel table' s' in
      if ltb (position d s) (size d s)
      then elim set [ none ↦ (table', s') | some _ ↦ again ]
      else (table, s)

  -- The result says false, whatever was read.
  unfoldable pub parse :
      (List RangeSet → List RangeSet) → ℕ → Stream S → Bool × List RangeSet × Stream S
  parse sort address_size s =
      let (table, s') = parse_loop address_size (size d s) [] s in (false, sort table, s')
