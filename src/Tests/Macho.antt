-- ===== src/Tests/Macho.antt =====
-- Runs of the Mach-O headers, the UUIDs and the symbol table, and of an object that is loaded on demand.
use mach_olib.Common.{
  some, length, ℕ, zero, suc, ◌+◌, ◌<◌, ◌≡◌, refl, arith, true, not, ◌==◌, ◌⊎◌, List, [], ◌∷◌, map,
  All,
}
use mach_olib.Tests.{memory_of-IsValid, stream_of}
use mach_olib.Base.{ResultCode, success, fail, fresh}
use mach_olib.Base.Once.{calls, attempts, calls-attempts}
use mach_olib.Io.Codec.{le_encode, be_encode}
use mach_olib.Io.Stream.{le_image, be_image, little_endian}
use mach_olib.Io.Stream.Laws.{IsOpen}
use mach_olib.Io.Memory.{memory_device}
use mach_olib.Io.Memory.Laws.{memory_reader}
use mach_olib.Macho.Header.{MachHeader, FatArch, read_header, deserialize}
use mach_olib.Macho.Header.Words.{Behind}
use mach_olib.Macho.Header.Laws.{IsHeader, header_image, as_read, order_of, read_header-image}
use mach_olib.Macho.Header.Archs.{IsArch, arch_image, deserialize-image}
use mach_olib.Macho.Uuid.{uuid_mem2str, uuid_str2mem}
use mach_olib.Macho.Uuid.RoundTrip.{
  is_hex, to_upper, uuid_str2mem-uuid_mem2str, uuid_mem2str-uuid_str2mem,
}
use mach_olib.Macho.Commands.{begin, walk, load_commands}
use mach_olib.Macho.Commands.Walk.{length-load_commands}
use mach_olib.Macho.Fat.{Members}
use mach_olib.Macho.Symbols.{Symbol, symbol_idx_first_at_range, invalid_symbol_idx}
use mach_olib.Macho.Symbols.Lookup.{Covers, lookup-Covers, lookup_found}

-- An object that loads at the second attempt.
abbrev second_time : ℕ → ResultCode × ℕ
second_time (suc zero) = (success, 2)
second_time n = (fail, n + 1)

calls-attempts_example : calls second_time 4 (fresh 0) ≡ attempts second_time 4 0
calls-attempts_example = calls-attempts second_time 4 0

abbrev unread : MachHeader
unread = record {
  magic = 0;
  cputype = 0;
  cpusubtype = 0;
  filetype = 0;
  ncmds = 0;
  sizeofcmds = 0;
  flags = 0;
  reserved = 0;
}

-- An x86-64 executable.
abbrev executable : MachHeader
executable = record {
  magic = 0;
  cputype = 0x01000007;
  cpusubtype = 3;
  filetype = 2;
  ncmds = 16;
  sizeofcmds = 0x500;
  flags = 0x85;
  reserved = 0;
}

executable-IsHeader : IsHeader executable
executable-IsHeader = record {
  cputype = omega arith;
  cpusubtype = omega arith;
  filetype = omega arith;
  ncmds = omega arith;
  sizeofcmds = omega arith;
  flags = omega arith;
  reserved = omega arith;
}

abbrev executable_file : List ℕ
executable_file = header_image true true executable (1 ∷ 2 ∷ [])

executable_file-IsOpen : IsOpen memory_device memory_reader (stream_of executable_file)
unfolding memory_reader le_image be_image le_encode be_encode
executable_file-IsOpen = memory_of-IsValid executable_file (omega arith)

read_header-image_example :
    Behind memory_device memory_reader
      (success, as_read true true executable unread)
      (1 ∷ 2 ∷ [])
      (order_of true)
      (read_header memory_device unread (stream_of executable_file))
unfolding memory_reader memory_device
read_header-image_example =
    read_header-image memory_device memory_reader true true executable unread
      (stream_of executable_file) (1 ∷ 2 ∷ []) executable-IsHeader executable_file-IsOpen refl

abbrev no_arch : FatArch
no_arch = record { cputype = 0; cpusubtype = 0; macho_off = 0; macho_size = 0; align = 0 }

abbrev an_arch : FatArch
an_arch = record {
  cputype = 7;
  cpusubtype = 3;
  macho_off = 0x1000;
  macho_size = 0x2000;
  align = 12;
}

an_arch-IsArch : IsArch an_arch
an_arch-IsArch = record {
  cputype = omega arith;
  cpusubtype = omega arith;
  macho_off = omega arith;
  macho_size = omega arith;
  align = omega arith;
}

abbrev arch_file : List ℕ
arch_file = arch_image little_endian an_arch (9 ∷ [])

arch_file-IsOpen : IsOpen memory_device memory_reader (stream_of arch_file)
unfolding memory_reader le_image le_encode
arch_file-IsOpen = memory_of-IsValid arch_file (omega arith)

deserialize-image_example :
    Behind memory_device memory_reader
      (success, an_arch)
      (9 ∷ [])
      little_endian
      (deserialize memory_device no_arch (stream_of arch_file))
unfolding memory_reader memory_device
deserialize-image_example =
    deserialize-image memory_device memory_reader an_arch no_arch (stream_of arch_file) (9 ∷ [])
      an_arch-IsArch arch_file-IsOpen refl

abbrev some_uuid : List ℕ
some_uuid =
    0x12 ∷ 0x3E ∷ 0x45 ∷ 0x67 ∷ 0xE8 ∷ 0x9B ∷ 0x12 ∷ 0xD3 ∷ 0xA4 ∷ 0x56 ∷ 0x42 ∷ 0x66 ∷ 0x14 ∷ 0x17
    ∷ 0x40 ∷ 0x00 ∷ []

some_uuid-bytes : All (λ b. b < 256) some_uuid
some_uuid-bytes = ground arith

uuid_str2mem-uuid_mem2str_example : uuid_str2mem (uuid_mem2str some_uuid) ≡ some_uuid
uuid_str2mem-uuid_mem2str_example = uuid_str2mem-uuid_mem2str some_uuid refl some_uuid-bytes

-- "deadBEEF" four times.
abbrev some_text : List ℕ
some_text =
    100 ∷ 101 ∷ 97 ∷ 100 ∷ 66 ∷ 69 ∷ 69 ∷ 70 ∷ 100 ∷ 101 ∷ 97 ∷ 100 ∷ 66 ∷ 69 ∷ 69 ∷ 70 ∷ 100 ∷ 101
    ∷ 97 ∷ 100 ∷ 66 ∷ 69 ∷ 69 ∷ 70 ∷ 100 ∷ 101 ∷ 97 ∷ 100 ∷ 66 ∷ 69 ∷ 69 ∷ 70 ∷ []

some_text-hex : All (λ c. is_hex c ≡ true) some_text
some_text-hex = ground arith

uuid_mem2str-uuid_str2mem_example : uuid_mem2str (uuid_str2mem some_text) ≡ map to_upper some_text
uuid_mem2str-uuid_str2mem_example = uuid_mem2str-uuid_str2mem some_text refl some_text-hex

abbrev symbol_at : ℕ → Symbol
symbol_at a = record { address = a; str_idx = 0; type = 0xE; section_idx = 1 }

abbrev two_symbols : List Symbol
two_symbols = symbol_at 0x1000 ∷ symbol_at 0x1040 ∷ []

lookup-Covers_example : symbol_idx_first_at_range 0x1010 two_symbols ≡ 0
lookup-Covers_example =
    lookup-Covers two_symbols 0x1010 0 (omega arith) ((omega arith, tt), (tt, tt))
      (record {
        here = symbol_at 0x1000;
        behind = symbol_at 0x1040;
        here_at = refl;
        behind_at = refl;
        starts = omega arith;
        ends = omega arith;
      })

lookup_found_example :
    (symbol_idx_first_at_range 0x1010 two_symbols ≡ invalid_symbol_idx)
    ⊎ Covers two_symbols 0x1010 (symbol_idx_first_at_range 0x1010 two_symbols)
lookup_found_example = lookup_found two_symbols 0x1010 (omega arith) ((omega arith, tt), (tt, tt))

-- Two commands of 16 bytes each, the first of them that of a UUID.
abbrev command_file : List ℕ
command_file =
    0x1b ∷ 0 ∷ 0 ∷ 0 ∷ 16 ∷ 0 ∷ 0 ∷ 0 ∷ 1 ∷ 2 ∷ 3 ∷ 4 ∷ 5 ∷ 6 ∷ 7 ∷ 8 ∷ 0x24 ∷ 0 ∷ 0 ∷ 0 ∷ 16 ∷ 0
    ∷ 0 ∷ 0 ∷ 0 ∷ 9 ∷ 10 ∷ 0 ∷ 0 ∷ 10 ∷ 10 ∷ 0 ∷ []

abbrev one_held : List (ℕ × ℕ)
one_held = (1, 8) ∷ []

length-load_commands_example :
    ((load_commands memory_device (some (stream_of command_file)) 0 2 one_held).0 ≡ success)
    × (length (load_commands memory_device (some (stream_of command_file)) 0 2 one_held).1 ≡ 1 + 2)
    × (walk memory_device (2 + 3) (begin memory_device (some (stream_of command_file)) 0 2) one_held
        ≡ (load_commands memory_device (some (stream_of command_file)) 0 2 one_held).1)
length-load_commands_example =
    length-load_commands memory_device (stream_of command_file) 0 2 3 one_held (omega arith)

-- Members whose offset is their UUID, if it is one byte at least.
abbrev numbered : Members
numbered = record {
  cputype_of = λ i. 7;
  cpusubtype_of = λ i. 3;
  has_uuid = λ i. not (i == 0);
  uuid_of = λ i. i ∷ [];
}
