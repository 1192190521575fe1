-- ===== src/Macho/Segments/Names.antt =====
-- The table of a segment's sections by name, and what the operations on it do to it.
use mach_olib.Common.{ℕ, ◌≡◌, refl, arith, true, false, Option, none, some, List, [], ◌∷◌}
use mach_olib.Macho.Sections.{Section}
use mach_olib.Macho.Segments.{
  less, SectionsTable, find_section, insert, Segment, is_exist_section, get_section,
}

less_self : (name : List ℕ) → less name name ≡ false
unfolding less
less_self [] = refl
less_self (x ∷ xs) = let again = less_self xs in ground arith

-- A name that the table does not have is found with its section after it is inserted.
pub find_section-insert :
    (name : List ℕ) (section : Option Section) (table : SectionsTable)
    → find_section name table ≡ none
    → find_section name (insert name section table) ≡ some section
unfolding find_section insert
find_section-insert name section [] missing = rw (less_self name) refl
find_section-insert name section ((key, old) ∷ table) missing =
    let more = find_section-insert name section table in let same = less_self name in ground arith

-- After a look for a section by its name, the segment says that it has a section of that name,
-- whether the file has one or not.
pub is_exist_section-get_section :
    (name : List ℕ) (segment : Segment) → is_exist_section name (get_section name segment).1 ≡ true
unfolding is_exist_section get_section find_section insert
is_exist_section-get_section name segment =
    let found : find_section name segment.sections ≡ none
        → find_section name (insert name none segment.sections) ≡ some none =
      find_section-insert name none segment.sections in
    ground arith
