-- ===== src/Macho/Header.antt =====
-- macho/CMachO.h and macho/CMachO.cpp: `CMachO::MachHeader::Read`; macho/CFatArch.cpp: the entry of a
-- fat archive. The unions of a number and an enum are the number.
pub mod Words
pub mod Laws
pub mod Archs
use mach_olib.Common.{ℕ, ◌==◌, if◌then◌else◌, Bool, ◌||◌}
use mach_olib.Base.{ResultCode, success, fail}
use mach_olib.Io.Stream.{Device, Stream, Action, ◌>>=◌, pure, w32, le_read, get, enable_big_endian}

-- A variable that the code does not set keeps the value that it has before.
pub record MachHeader : Type 0 where
  pub magic : ℕ
  pub cputype : ℕ
  pub cpusubtype : ℕ
  pub filetype : ℕ
  pub ncmds : ℕ
  pub sizeofcmds : ℕ
  pub flags : ℕ
  pub reserved : ℕ

abbrev pub macho_magic : ℕ
macho_magic = 0xFEEDFACE

abbrev pub macho_magic_swap : ℕ
macho_magic_swap = 0xCEFAEDFE

abbrev pub macho_magic_64 : ℕ
macho_magic_64 = 0xFEEDFACF

abbrev pub macho_magic_swap_64 : ℕ
macho_magic_swap_64 = 0xCFFAEDFE

-- `CFATArch`, without the source of its stream
pub record FatArch : Type 0 where
  pub cputype : ℕ
  pub cpusubtype : ℕ
  pub macho_off : ℕ
  pub macho_size : ℕ
  pub align : ℕ

module _ {S : Type 0} (d : Device S) where
  -- The six words that both kinds of header begin with, after the magic number.
  unfoldable pub read_words : MachHeader → Action S MachHeader
  read_words res = do
    cputype ← get d w32 res.cputype
    cpusubtype ← get d w32 res.cpusubtype
    filetype ← get d w32 res.filetype
    ncmds ← get d w32 res.ncmds
    sizeofcmds ← get d w32 res.sizeofcmds
    flags ← get d w32 res.flags
    pure (record res {
      cputype = cputype;
      cpusubtype = cpusubtype;
      filetype = filetype;
      ncmds = ncmds;
      sizeofcmds = sizeofcmds;
      flags = flags;
    })

  unfoldable pub read_words_64 : MachHeader → Action S MachHeader
  read_words_64 res = do
    words ← read_words res
    reserved ← get d w32 words.reserved
    pure (record words { reserved = reserved })

  unfoldable pub read_header : MachHeader → Action S (ResultCode × MachHeader)
  read_header res s =
      let ((_, magic), at_words) = le_read d w32 res.magic s in
      let named = record res { magic = magic } in
      let (header, behind) =
        read_words named (enable_big_endian (magic == macho_magic_swap) at_words) in
      let (header_64, behind_64) =
        read_words_64 named (enable_big_endian (magic == macho_magic_swap_64) at_words) in
      if magic == macho_magic || magic == macho_magic_swap
      then ((success, header), behind)
      else if magic == macho_magic_64 || magic == macho_magic_swap_64
      then ((success, header_64), behind_64)
      else ((fail, named), at_words)

  -- `CFATArch::deserialize`; the local variables hold what `fresh` has before.
  unfoldable pub deserialize : FatArch → Action S (ResultCode × FatArch)
  deserialize fresh = do
    cputype ← get d w32 fresh.cputype
    cpusubtype ← get d w32 fresh.cpusubtype
    offset ← get d w32 fresh.macho_off
    size ← get d w32 fresh.macho_size
    align ← get d w32 fresh.align
    pure (
      success,
      record {
        cputype = cputype;
        cpusubtype = cpusubtype;
        macho_off = offset;
        macho_size = size;
        align = align;
      },
    )
