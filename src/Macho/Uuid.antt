-- ===== src/Macho/Uuid.antt =====
-- macho/UUID.cpp: the text of a UUID, as character codes, and its bytes. Both loops take the elements
-- in order, so that the model takes them off the front of a list.
pub mod RoundTrip
use mach_olib.Common.{
  ℕ, zero, suc, ◌+◌, ◌-◌, ◌*◌, ◌/◌, ◌^◌, leb, if◌then◌else◌, ◌&&◌, List, [], ◌∷◌, get_or, drop,
  bit_and, bit_or,
}

abbrev pub num_table : List ℕ
num_table = 48 ∷ 49 ∷ 50 ∷ 51 ∷ 52 ∷ 53 ∷ 54 ∷ 55 ∷ 56 ∷ 57 ∷ 65 ∷ 66 ∷ 67 ∷ 68 ∷ 69 ∷ 70 ∷ []

-- `char2num`: a character that is no hexadecimal digit is 0.
unfoldable pub char2num : ℕ → ℕ
char2num c =
    let ret =
      if leb 48 c && leb c 57
      then c - 48
      else if leb 97 c && leb c 102
      then c - 97 + 0xA
      else if leb 65 c && leb c 70
      then c - 65 + 0xA
      else 0 in
    bit_and ret 0xf

-- `UUIDMem2Str`, of the bytes at `data`
unfoldable pub uuid_mem2str : List ℕ → List ℕ
uuid_mem2str [] = []
uuid_mem2str (c ∷ cs) =
    get_or num_table (bit_and (c / 2 ^ 4) 0xf) 0
    ∷ get_or num_table (bit_and c 0xf) 0
    ∷ uuid_mem2str cs

-- `UUIDStr2Mem`, for a number of bytes; a character behind the end of the text is NUL.
unfoldable pub str_bytes : ℕ → List ℕ → List ℕ
unfolding char2num
str_bytes zero str = []
str_bytes (suc n) str =
    bit_or (char2num (get_or str 0 0) * 2 ^ 4) (char2num (get_or str 1 0))
    ∷ str_bytes n (drop 2 str)

abbrev pub uuid_byte_size : ℕ
uuid_byte_size = 16

abbrev pub uuid_str2mem : List ℕ → List ℕ
uuid_str2mem str = str_bytes uuid_byte_size str
