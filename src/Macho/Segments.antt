-- ===== src/Macho/Segments.antt =====
-- macho/CSegment.cpp: a segment of a Mach-O file and its sections. What `m_source.open()` gives is an
-- argument of the operations; the trace output is left out.
pub mod Names
use mach_olib.Common.{
  ℕ, zero, suc, ◌+◌, ◌-◌, ◌*◌, ◌%◌, ◌^◌, ◌==◌, ltb, if◌then◌else◌, Bool, false, true, not, ◌&&◌,
  Option, none, some, List, [], ◌∷◌, length, get_elem?,
}
use mach_olib.Base.{ResultCode, success, fail}
use mach_olib.Io.Platform.{Platform}
use mach_olib.Io.Memory.{Memory, of_stream, memory_device}
use mach_olib.Io.Stream.{
  Device, Stream, Action, ◌>>=◌, pure, Width, w32, w64, read, get, seek, position,
}
use mach_olib.Dwarf.FormValue.{c_string}
use mach_olib.Macho.Sections.{Section, made, address_width}

-- The order of `std::string`
unfoldable pub less : List ℕ → List ℕ → Bool
less [] [] = false
less [] (y ∷ ys) = true
less (x ∷ xs) [] = false
less (x ∷ xs) (y ∷ ys) =
    let more = less xs ys in if ltb x y then true else if ltb y x then false else more

-- `SectionsTable`, in the map's order. `none` is a NULL pointer.
abbrev pub SectionsTable : Type 0
SectionsTable = List (List ℕ × Option Section)

-- `find`
unfoldable pub find_section : List ℕ → SectionsTable → Option (Option Section)
unfolding less
find_section name [] = none
find_section name ((key, section) ∷ table) =
    let more = find_section name table in
    if not (less name key) && not (less key name) then some section else more

-- `std::map::insert`: a name that the map has keeps its section.
unfoldable pub insert : List ℕ → Option Section → SectionsTable → SectionsTable
unfolding less
insert name section [] = (name, section) ∷ []
insert name section ((key, old) ∷ table) =
    let more = insert name section table in
    if less name key
    then (name, section) ∷ ((key, old) ∷ table)
    else if less key name
    then (key, old) ∷ more
    else (key, old) ∷ table

-- `CSegment`, without `m_source`.
pub record Segment : Type 0 where
  pub is_loaded : Bool
  pub is_x64 : Bool
  pub sections : SectionsTable
  pub start_off : ℕ
  pub offset_of_macho : ℕ
  pub vmaddr : ℕ
  pub vmsize : ℕ
  pub name : List ℕ

-- The local variables that the two branches of `preload` read, `other` for those it does not use.
pub record Fields : Type 0 where
  pub segname : List ℕ
  pub vmaddr : ℕ
  pub vmsize : ℕ
  pub nsects : ℕ
  pub other : ℕ

-- `sizeof(section_64)` and `sizeof(section)`; `size_of_other_part64` and `size_of_other_part`
abbrev pub size_of_section : Bool → ℕ
size_of_section is_x64 = if is_x64 then 80 else 68

abbrev pub size_of_other_part : Bool → ℕ
size_of_other_part is_x64 = if is_x64 then 64 else 52

module _ {S : Type 0} (d : Device S) where
  unfoldable pub read_fields : Bool → Fields → Action S Fields
  unfolding c_string
  read_fields is_x64 old = do
    segname ← read d 16
    vmaddr ← get d (address_width is_x64) old.vmaddr
    vmsize ← get d (address_width is_x64) old.vmsize
    fileoff ← get d (address_width is_x64) old.other
    filesize ← get d (address_width is_x64) old.other
    maxprot ← get d w32 old.other
    initprot ← get d w32 old.other
    nsects ← get d w32 old.nsects
    flags ← get d w32 old.other
    pure (record {
      segname = c_string segname;
      vmaddr = vmaddr;
      vmsize = vmsize;
      nsects = nsects;
      other = flags;
    })

-- The loop over the sections: `sections` is the memory stream, `base` is `offset_of_sections`, and
-- `unset` gives the members that the constructor of a section does not set.
unfoldable pub read_sections :
    (segment : Segment) (unset : ℕ → ℕ × ℕ) (base rounds : ℕ)
    → Stream Memory
    → SectionsTable
    → SectionsTable
unfolding read seek position memory_device made insert c_string
read_sections segment unset base zero sections table = table
read_sections segment unset base (suc n) sections table =
    let at_section = position memory_device sections in
    let (sectname, behind) = read memory_device 16 sections in
    let (_, next) =
      seek memory_device
        ((position memory_device behind + size_of_other_part segment.is_x64) % 2 ^ 64) behind in
    let section =
      made (unset n).0 (unset n).1 ((base + at_section) % 2 ^ 32) segment.offset_of_macho
        segment.is_x64 in
    read_sections segment unset base n next (insert (c_string sectname) (some section) table)

module _ {S : Type 0} (p : Platform) (d : Device S) (unset : ℕ → ℕ × ℕ) where
  -- `CSegment::preload`
  unfoldable pub preload : Fields → Option (Stream S) → Segment → ResultCode × Segment
  unfolding seek read_fields of_stream read_sections position
  preload old opened segment = elim opened [
    | none ↦ (fail, segment)
    | some s ↦
        let (fields, behind) = read_fields d segment.is_x64 old (seek d segment.start_off s).1 in
        let (sections, _) = of_stream p d (size_of_section segment.is_x64 * fields.nsects) behind in
        (
          success,
          record segment {
            is_loaded = true;
            vmaddr = fields.vmaddr;
            vmsize = fields.vmsize;
            name = fields.segname;
            sections =
                read_sections segment unset (position d behind % 2 ^ 32) fields.nsects sections
                  segment.sections;
          },
        )
  ]

  -- What the members do first.
  unfoldable pub ready : Fields → Option (Stream S) → Segment → Segment
  unfolding preload
  ready old opened segment = if segment.is_loaded then segment else (preload old opened segment).1

-- `isExistSection`, `getSection`, `getSectionAt` and `getSectionCount`, of a segment that is ready.
unfoldable pub is_exist_section : List ℕ → Segment → Bool
unfolding find_section
is_exist_section name segment = elim (find_section name segment.sections) [
  | none ↦ false
  | some _ ↦ true
]

-- `m_sections[name]` puts a NULL pointer under a name that the map does not have.
unfoldable pub get_section : List ℕ → Segment → Option Section × Segment
unfolding find_section insert
get_section name segment = elim (find_section name segment.sections) [
  | none ↦ (none, record segment { sections = insert name none segment.sections })
  | some section ↦ (section, segment)
]

unfoldable pub get_section_at : ℕ → Segment → Option Section
get_section_at idx segment = elim (get_elem? segment.sections idx) [
  | none ↦ none
  | some entry ↦ entry.1
]

unfoldable pub get_section_count : Segment → ℕ
get_section_count segment = length segment.sections % 2 ^ 32
