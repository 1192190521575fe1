-- ===== src/Tests/Io.antt =====
-- Runs of the streams.
use mach_olib.Common.{
  ℕ, ◌+◌, ◌-◌, ◌%◌, ◌^◌, ◌≡◌, refl, arith, min, List, [], ◌∷◌, ◌++◌, length, take, drop, replicate,
  All,
}
use mathlib.Core.List.{reverse}
use mach_olib.Tests.{zeroed, memory_of, memory_of-IsValid, stream_of}
use mach_olib.Io.Codec.{le_encode, be_encode, le_decode, be_decode}
use mach_olib.Io.Codec.Digits.{IsByte}
use mach_olib.Io.Codec.RoundTrip.{decode-encode, encode-decode, be_decode-reverse}
use mach_olib.Io.Stream.{Stream, w32, little_endian, big_endian, t_write, get}
use mach_olib.Io.Stream
use mach_olib.Io.Stream.Laws.{rest, IsOpen}
use mach_olib.Io.Memory.{Memory, seek, read_memory, write_memory, memory_device, of_stream}
use mach_olib.Io.Memory.Laws.{IsValid, memory_reader}
use mach_olib.Io.Memory.Writing.{read-write_memory, of_stream-read}
use mach_olib.Io.Dynamic.{Dynamic, write_dynamic, dynamic_device}
use mach_olib.Io.Dynamic.Laws
use mach_olib.Io.Dynamic.Laws.{contents, overwrite}
use mach_olib.Io.Dynamic.File.{contents-write_dynamic}
use mach_olib.Io.Dynamic.Values.{get-t_write}
use mach_olib.Io.Text.{read_sz}
use mach_olib.Io.Text.Laws.{IsString, read_sz-IsString, read_sz-string}
use mach_olib.Io.Leb.{Locals, leb_loop, read_uleb128, read_sleb128}
use mach_olib.Io.Leb.Groups.{leb_bytes}
use mach_olib.Io.Leb.Unsigned.{read_uleb128-value, leb_loop_ends}
use mach_olib.Io.Leb.Signed.{extended, read_sleb128-value}
use mach_olib.Io.Substream.{Substream, read_substream}
use mach_olib.Io.Substream.Laws as Window
use mach_olib.Io.Substream.Laws.{IsRead, read_substream-IsRead}

decode-encode_example :
    (le_decode 4 (le_encode 4 0xCAFEBABE) ≡ 0xCAFEBABE)
    × (be_decode 4 (be_encode 4 0xCAFEBABE) ≡ 0xCAFEBABE)
decode-encode_example = decode-encode 4 0xCAFEBABE (omega arith)

abbrev four_bytes : List ℕ
four_bytes = 0xCA ∷ 0xFE ∷ 0xBA ∷ 0xBE ∷ []

four_bytes-IsByte : All IsByte four_bytes
four_bytes-IsByte = (omega arith, (omega arith, (omega arith, (omega arith, tt))))

encode-decode_example :
    (le_encode 4 (le_decode 4 four_bytes) ≡ four_bytes)
    × (be_encode 4 (be_decode 4 four_bytes) ≡ four_bytes)
encode-decode_example = encode-decode 4 four_bytes refl four_bytes-IsByte

be_decode-reverse_example : be_decode 4 four_bytes ≡ le_decode 4 (reverse four_bytes)
be_decode-reverse_example = be_decode-reverse 4 four_bytes refl four_bytes-IsByte

-- A block of four bytes with room for two more at the position.
abbrev half_read : Memory
half_read = record { buffer = four_bytes; size = 4; position = 2 }

half_read-IsValid : IsValid half_read
half_read-IsValid = record { sized = refl; bound = omega arith; small = omega arith }

abbrev three_bytes : List ℕ
three_bytes = 1 ∷ 2 ∷ 3 ∷ []

read-write_memory_example :
    let (n, m') = write_memory three_bytes half_read in
    (n ≡ min (half_read.size - half_read.position) (length three_bytes))
    × IsValid m'
    × (m'.size ≡ half_read.size)
    × (m'.position ≡ half_read.position + n)
    × ((read_memory n (seek half_read.position m').1).0 ≡ take n three_bytes)
    × (take half_read.position m'.buffer ≡ take half_read.position half_read.buffer)
    × (drop (half_read.position + n) m'.buffer ≡ drop (half_read.position + n) half_read.buffer)
read-write_memory_example = read-write_memory three_bytes half_read half_read-IsValid

three_bytes-IsOpen : IsOpen memory_device memory_reader (stream_of three_bytes)
unfolding memory_reader
three_bytes-IsOpen = memory_of-IsValid three_bytes (omega arith)

of_stream-read_example :
    let (s', source) = of_stream zeroed memory_device 2 (stream_of three_bytes) in
    (s'.device.size ≡ 2)
    × (s'.device.position ≡ 0)
    × (s'.encoding ≡ little_endian)
    × (s'.device.buffer
        ≡ take 2 (rest memory_device memory_reader (stream_of three_bytes))
          ++ drop
              (min 2 (length (rest memory_device memory_reader (stream_of three_bytes))))
              (replicate 2 0))
    × (rest memory_device memory_reader source
        ≡ drop 2 (rest memory_device memory_reader (stream_of three_bytes)))
of_stream-read_example =
    of_stream-read zeroed memory_device memory_reader 2 (stream_of three_bytes) (replicate 2 0) refl
      three_bytes-IsOpen

-- A growing stream of four bytes, all reserved, and the position before the last.
abbrev grown : Dynamic
grown = record { memory = record half_read { position = 3 }; reserved = 4 }

grown-IsValid : Laws.IsValid grown
grown-IsValid = record {
  sized = refl;
  fits = omega arith;
  bound = omega arith;
  small = omega arith;
}

contents-write_dynamic_example :
    let (n, s') = write_dynamic zeroed three_bytes grown in
    (n ≡ length three_bytes)
    × Laws.IsValid s'
    × (contents s' ≡ overwrite (contents grown) 3 three_bytes)
    × (s'.memory.position ≡ 3 + length three_bytes)
contents-write_dynamic_example =
    contents-write_dynamic zeroed three_bytes grown grown-IsValid (omega arith) (λ _. (_, refl))

get-t_write_example :
    let d = dynamic_device zeroed in
    let (_, written) =
      t_write d w32 0xFEEDFACE (record { encoding = big_endian; device = grown }) in
    let (_, again) = Stream.seek d 3 written in (get d w32 0 again).0 ≡ 0xFEEDFACE
get-t_write_example =
    get-t_write zeroed w32 0xFEEDFACE 0 (record { encoding = big_endian; device = grown })
      (omega arith) grown-IsValid (omega arith) (λ _. (_, refl))

-- "a", a zero, and one byte more.
abbrev short_text : List ℕ
short_text = 97 ∷ 0 ∷ 7 ∷ []

short_text-IsOpen : IsOpen memory_device memory_reader (stream_of short_text)
unfolding memory_reader
short_text-IsOpen = memory_of-IsValid short_text (omega arith)

read_sz-IsString_example :
    IsString memory_device memory_reader 8 8 []
      (rest memory_device memory_reader (stream_of short_text))
      (stream_of short_text)
      (read_sz memory_device 8 (stream_of short_text))
read_sz-IsString_example =
    read_sz-IsString memory_device memory_reader 8 (stream_of short_text) short_text-IsOpen
      (omega arith)

read_sz-string_example :
    let (dst, s') = read_sz memory_device 8 (stream_of short_text) in
    (dst ≡ (97 ∷ []) ++ (0 ∷ []))
    × (rest memory_device memory_reader s' ≡ 7 ∷ [])
    × (s'.encoding ≡ little_endian)
unfolding memory_reader memory_device
read_sz-string_example =
    read_sz-string memory_device memory_reader 8 (stream_of short_text) (97 ∷ []) (7 ∷ [])
      short_text-IsOpen (omega arith, tt) (omega arith) refl

-- 300 in two groups, and one byte more.
abbrev two_groups : List ℕ
two_groups = 0xAC ∷ 0x02 ∷ 9 ∷ []

two_groups-IsOpen : IsOpen memory_device memory_reader (stream_of two_groups)
unfolding memory_reader
two_groups-IsOpen = memory_of-IsValid two_groups (omega arith)

read_uleb128-value_example :
    let ((chk, out), s') = read_uleb128 zeroed memory_device (stream_of two_groups) in
    (chk ≡ 1 + 1)
    × (out ≡ 300 % 2 ^ 32)
    × (rest memory_device memory_reader s' ≡ 9 ∷ [])
    × (s'.encoding ≡ little_endian)
    × IsOpen memory_device memory_reader s'
unfolding memory_reader memory_device leb_bytes
read_uleb128-value_example =
    read_uleb128-value zeroed memory_device memory_reader 1 300 (stream_of two_groups) (9 ∷ [])
      (omega arith) (omega arith) two_groups-IsOpen refl

abbrev no_groups : Locals
no_groups = record { chk = 0; shift = 0; byte = 0; out = 0 }

leb_loop_ends_example :
    leb_loop zeroed memory_device (length two_groups + 5) no_groups (stream_of two_groups)
    ≡ leb_loop zeroed memory_device (length two_groups) no_groups (stream_of two_groups)
unfolding memory_reader memory_device
leb_loop_ends_example =
    leb_loop_ends zeroed memory_device memory_reader two_groups 5 no_groups (stream_of two_groups)
      two_groups-IsOpen refl

-- -2 in one group, and one byte more.
abbrev one_group : List ℕ
one_group = 0x7E ∷ 9 ∷ []

one_group-IsOpen : IsOpen memory_device memory_reader (stream_of one_group)
unfolding memory_reader
one_group-IsOpen = memory_of-IsValid one_group (omega arith)

read_sleb128-value_example :
    let ((chk, out), s') = read_sleb128 zeroed memory_device (stream_of one_group) in
    (chk ≡ 0 + 1)
    × (out ≡ extended 0 126)
    × (rest memory_device memory_reader s' ≡ 9 ∷ [])
    × (s'.encoding ≡ little_endian)
    × IsOpen memory_device memory_reader s'
unfolding memory_reader memory_device leb_bytes
read_sleb128-value_example =
    read_sleb128-value zeroed memory_device memory_reader 0 126 (stream_of one_group) (9 ∷ [])
      (omega arith) (omega arith) one_group-IsOpen refl

-- The middle two of four bytes, with one of them read.
abbrev window : Substream Memory
window = record { parent = memory_of four_bytes; position = 1; start = 1; size = 2 }

window-IsValid : Window.IsValid memory_device memory_reader window
unfolding memory_reader
window-IsValid = record {
  parent_valid = memory_of-IsValid four_bytes (omega arith);
  bound = omega arith;
  within = omega arith;
  small = omega arith;
}

read_substream-IsRead_example :
    IsRead memory_device memory_reader 5 window (read_substream memory_device 5 window)
read_substream-IsRead_example =
    read_substream-IsRead memory_device memory_reader 5 window window-IsValid
