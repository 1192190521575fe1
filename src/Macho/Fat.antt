-- ===== src/Macho/Fat.antt =====
-- macho/CFAT.cpp: an archive of Mach-O files, or a file with one. A member is the offset of its Mach-O
-- file; what the file at an offset says of itself is a parameter, as is the stream that the source opens.
-- The calls of `load_if_notloaded` that the searches begin with are those of the loaded object.
use mach_olib.Common.{
  ℕ, zero, suc, ◌==◌, ltb, if◌then◌else◌, Bool, true, not, ◌&&◌, ◌||◌, Option, none, some, List, [],
  ◌∷◌, ◌++◌, length, get_elem?, ◌≡◌,
}
use mach_olib.Base.{ResultCode, success, fail, is_successful}
use mach_olib.Io.Stream.{Device, Stream, w32, le_read, get, enable_big_endian}
use mach_olib.Macho.Header.{FatArch, deserialize}

abbrev pub fat_magic : ℕ
fat_magic = 0xCAFEBABE

abbrev pub fat_magic_swap : ℕ
fat_magic_swap = 0xBEBAFECA

-- What the program asks a `CMachO` object, by the offset that it was made with.
pub record Members : Type 0 where
  pub cputype_of : ℕ → ℕ
  pub cpusubtype_of : ℕ → ℕ
  pub has_uuid : ℕ → Bool
  pub uuid_of : ℕ → List ℕ

module _ {S : Type 0} (d : Device S) (fresh : FatArch) where
  -- The loop of `CFAT::_load` over the entries of an archive; `fresh` is what an entry's variables hold
  -- before they are read.
  unfoldable pub load_archs : ℕ → ResultCode → List ℕ → Stream S → ResultCode × List ℕ × Stream S
  load_archs zero ret_code machos s = (ret_code, machos, s)
  load_archs (suc count) ret_code machos s =
      let ((code, arch), s') = deserialize d fresh s in
      let further = load_archs count code (machos ++ (arch.macho_off ∷ [])) s' in
      elim code [ success ↦ further | other ↦ (other, machos, s') ]

  -- `CFAT::_load`; the two variables hold 0 where the stream is too short.
  unfoldable pub load_fat : Members → Option (Stream S) → List ℕ → ResultCode × List ℕ
  load_fat m opened held = elim opened [
    | none ↦ (fail, held)
    | some s ↦
        let ((_, magic), s1) = le_read d w32 0 s in
        let (count, s2) = get d w32 0 (enable_big_endian (magic == fat_magic_swap) s1) in
        let (ret_code, machos, _) = load_archs count fail [] s2 in
        if magic == fat_magic || magic == fat_magic_swap
        then (ret_code, machos)
        else if m.has_uuid 0 && not (length (m.uuid_of 0) == 0)
        then (success, 0 ∷ [])
        else (fail, [])
  ]

module _ (m : Members) where
  -- `CFAT::getMachO` by type
  unfoldable pub macho_by_type : ℕ → ℕ → List ℕ → Option ℕ
  macho_by_type type sub_type [] = none
  macho_by_type type sub_type (i ∷ machos) =
      let others = macho_by_type type sub_type machos in
      if m.cputype_of i == type && m.cpusubtype_of i == sub_type then some i else others

  -- `CFAT::getMachOAt` and `CFAT::count`
  unfoldable pub macho_at : ℕ → List ℕ → Option ℕ
  macho_at idx machos = if ltb idx (length machos) then get_elem? machos idx else none

  unfoldable pub macho_count : List ℕ → ℕ
  macho_count machos = length machos

  -- The loop of `CFAT::getAllUUIDs`: it stops at the first member without a UUID.
  unfoldable pub collect : ResultCode → List (List ℕ) → List ℕ → ResultCode × List (List ℕ)
  collect ret_code uuids [] = (ret_code, uuids)
  collect ret_code uuids (i ∷ machos) =
      let further = collect success (uuids ++ (m.uuid_of i ∷ [])) machos in
      if m.has_uuid i && not (length (m.uuid_of i) == 0) then further else (fail, uuids)

  -- `CFAT::getAllUUIDs`, for the code that `load_if_notloaded` gave
  unfoldable pub all_uuids : ResultCode → List (List ℕ) → List ℕ → ResultCode × List (List ℕ)
  all_uuids ret_code uuids machos =
      let collected = collect ret_code uuids machos in
      if is_successful ret_code then collected else (ret_code, uuids)

  -- The code after members that have a UUID.
  abbrev pub code_after : ResultCode → List ℕ → ResultCode
  code_after ret_code [] = ret_code
  code_after ret_code (i ∷ machos) = success

  -- Every member has a UUID.
  abbrev pub HasAll : List ℕ → Type 0
  HasAll [] = Unit {_}
  HasAll (i ∷ machos) = ((m.has_uuid i && not (length (m.uuid_of i) == 0)) ≡ true) × HasAll machos
