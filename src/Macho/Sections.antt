-- ===== src/Macho/Sections.antt =====
-- macho/CSection.cpp: a section of a Mach-O file. What `m_source.open()` gives is an argument of the
-- operations; the trace output is left out.
use mach_olib.Common.{
  ℕ, ◌+◌, ◌%◌, ◌^◌, if◌then◌else◌, Bool, true, false, Option, none, some, List, [], ◌++◌, length,
  drop,
}
use mach_olib.Base.{ResultCode, success, fail}
use mach_olib.Io.Platform.{Platform}
use mach_olib.Io.Memory.{Memory, of_stream}
use mach_olib.Io.Stream.{Device, Stream, Action, ◌>>=◌, pure, Width, w32, w64, read, get, seek}
use mach_olib.Io.Substream.{Substream, of_parent}
use mach_olib.Dwarf.FormValue.{c_string}

-- `CSection`, without `m_source`.
pub record Section : Type 0 where
  pub is_loaded : Bool
  pub is_x64 : Bool
  pub start_off : ℕ
  pub offset_of_macho : ℕ
  pub offset_of_section_data : ℕ
  pub size_of_section_data : ℕ
  pub addr : ℕ
  pub size : ℕ
  pub sec : List ℕ

-- The fields of `section` and `section_64` that the code goes on to use, and `other` for the variable
-- that a further field is read into.
pub record Fields : Type 0 where
  pub sectname : List ℕ
  pub segname : List ℕ
  pub addr : ℕ
  pub size : ℕ
  pub offset : ℕ
  pub other : ℕ

-- `CSection(source, offset, offset_of_macho, is_x64)`; `m_addr` and `m_size` are not set.
unfoldable pub made : (addr size offset offset_of_macho : ℕ) → Bool → Section
made addr size offset offset_of_macho is_x64 = record {
  is_loaded = false;
  is_x64 = is_x64;
  start_off = offset;
  offset_of_macho = offset_of_macho;
  offset_of_section_data = 0;
  size_of_section_data = 0;
  addr = addr;
  size = size;
  sec = [];
}

-- The bytes that a `read` puts over the first bytes of an array.
abbrev pub over : List ℕ → List ℕ → List ℕ
over bytes array = bytes ++ drop (length bytes) array

abbrev pub address_width : Bool → Width
address_width is_x64 = if is_x64 then w64 else w32

module _ {S : Type 0} (d : Device S) where
  -- The structure as it is read, from what its variables hold before: `section_64` has one more word
  -- than `section` at its end.
  unfoldable pub read_fields : Bool → Fields → Action S Fields
  read_fields is_x64 old = do
    sectname ← read d 16
    segname ← read d 16
    addr ← get d (address_width is_x64) old.addr
    size ← get d (address_width is_x64) old.size
    offset ← get d w32 old.offset
    align ← get d w32 old.other
    reloff ← get d w32 old.other
    nreloc ← get d w32 old.other
    flags ← get d w32 old.other
    reserved1 ← get d w32 old.other
    reserved2 ← get d w32 old.other
    reserved3 ← if is_x64 then get d w32 old.other else pure old.other
    pure (record {
      sectname = over sectname old.sectname;
      segname = over segname old.segname;
      addr = addr;
      size = size;
      offset = offset;
      other = reserved3;
    })

  -- `CSection::preload`
  unfoldable pub preload : Fields → Option (Stream S) → Section → ResultCode × Section
  unfolding seek read_fields c_string
  preload old opened section = elim opened [
    | none ↦ (fail, section)
    | some s ↦
        let (fields, _) = read_fields section.is_x64 old (seek d section.start_off s).1 in
        (
          success,
          record section {
            is_loaded = true;
            offset_of_section_data = fields.offset;
            size_of_section_data = fields.size % 2 ^ 32;
            addr = fields.addr;
            size = fields.size;
            sec = c_string fields.sectname;
          },
        )
  ]

  -- `preload_if_notloaded`, and what the other members do first.
  unfoldable pub preload_if_notloaded : Fields → Option (Stream S) → Section → ResultCode × Section
  unfolding preload
  preload_if_notloaded old opened section =
      if section.is_loaded then (success, section) else preload old opened section

  -- `getAddress`, `getSize` and `getName`
  unfoldable pub get_address : Fields → Option (Stream S) → Section → ℕ
  unfolding preload_if_notloaded
  get_address old opened section = (preload_if_notloaded old opened section).1.addr

  unfoldable pub get_size : Fields → Option (Stream S) → Section → ℕ
  unfolding preload_if_notloaded
  get_size old opened section = (preload_if_notloaded old opened section).1.size

  unfoldable pub get_section_name : Fields → Option (Stream S) → Section → List ℕ
  unfolding preload_if_notloaded
  get_section_name old opened section = (preload_if_notloaded old opened section).1.sec

  -- `CSection::load`: the section after it, and the stream over a copy of its data. `opened` and `again`
  -- are what the first and the second `open` give; the sum of the offsets is 32-bit.
  unfoldable pub load_section :
      Platform
      → Fields
      → Option (Stream S)
      → Option (Stream S)
      → Section
      → Section × Option (Stream Memory)
  unfolding preload_if_notloaded seek of_stream
  load_section p old opened again section =
      let ready = (preload_if_notloaded old opened section).1 in
      (
        ready,
        elim again [
          | none ↦ none
          | some s ↦
              some
                (of_stream p d ready.size_of_section_data
                  (seek d ((ready.offset_of_macho + ready.offset_of_section_data) % 2 ^ 32) s).1).0
        ],
      )

  -- `CSection::read`: the section after it, and a window of the stream over its data.
  unfoldable pub read_section :
      Fields
      → Option (Stream S)
      → Option (Stream S)
      → Section
      → Section × Option (Stream (Substream S))
  unfolding preload_if_notloaded seek of_parent
  read_section old opened again section =
      let ready = (preload_if_notloaded old opened section).1 in
      let at = (ready.offset_of_macho + ready.offset_of_section_data) % 2 ^ 32 in
      (
        ready,
        elim again [
          | none ↦ none
          | some s ↦ some (of_parent (seek d at s).1 at ready.size_of_section_data)
        ],
      )
