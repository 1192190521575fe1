-- ===== src/Macho/Commands.antt =====
-- macho/CMachO.cpp: `CMachO::lc_iterator`, the iterator over the load commands of a file, and the units
-- that walk them: the table of the commands, the UUID and the minimal version of the system. What
-- `source_of_stream::open` gives is a parameter, and the unit of the header is its offset and its count.
pub mod Walk
use mach_olib.Common.{
  ℕ, zero, suc, ◌+◌, ◌-◌, ◌/◌, ◌%◌, ◌^◌, ◌==◌, leb, if◌then◌else◌, Bool, true, false, ◌||◌, Option,
  none, some, List, [], ◌∷◌, ◌++◌, length, replicate, bit_and,
}
use mach_olib.Base.{ResultCode, success, fail}
use mach_olib.Io.Stream.{Device, Stream, w32, seek, read, get}
use mach_olib.Macho.Uuid.{uuid_mem2str}

pub record Iterator (S : Type 0) : Type 0 where
  pub idx : ℕ
  pub cmd : ℕ
  pub cmd_size : ℕ
  pub cmd_off : ℕ
  pub end : ℕ
  pub stream : Option (Stream S)

-- `lc_iterator::data_size`: the subtraction is in 32 bits.
unfoldable pub data_size : {S : Type 0} → Iterator S → ℕ
data_size it = if it.cmd_size == 0 then 0 else (it.cmd_size + 2 ^ 32 - 8) % 2 ^ 32

-- `lc_iterator::efo`
unfoldable pub efo : {S : Type 0} → Iterator S → Bool
efo it = elim (it.stream) [ none ↦ true | some _ ↦ leb it.end it.idx ]

-- `MachOUnitMinOSVersion`
pub data OsType : Type 0 where
  unknown_os mac_os iphone_os : OsType

pub record MinVersion : Type 0 where
  pub version : ℕ
  pub sdk : ℕ
  pub os_type : OsType

abbrev pub no_version : MinVersion
no_version = record { version = 0; sdk = 0; os_type = unknown_os }

-- The three numbers that `getVersionEx` and `getSdkEx` print.
unfoldable pub version_parts : ℕ → ℕ × ℕ × ℕ
version_parts v =
    (bit_and v 0xFFFF0000 / 2 ^ 16, bit_and v 0x0000FF00 / 2 ^ 8, bit_and v 0x000000FF)

module _ {S : Type 0} (d : Device S) where
  -- `lc_iterator::lc_iterator`
  unfoldable pub begin : Option (Stream S) → ℕ → ℕ → Iterator S
  begin opened off cmd_count = elim opened [
    | none ↦ record {
      idx = 0;
      cmd = 0;
      cmd_size = 0;
      cmd_off = off;
      end = cmd_count;
      stream = none;
    }
    | some s ↦
        let (_, s1) = seek d off s in
        let (cmd, s2) = get d w32 0 s1 in
        let (cmd_size, s3) = get d w32 0 s2 in
        record {
          idx = 0;
          cmd = cmd;
          cmd_size = cmd_size;
          cmd_off = off;
          end = cmd_count;
          stream = some s3;
        }
  ]

  -- `lc_iterator::operator ++`
  unfoldable pub advance_command : Iterator S → Iterator S
  unfolding efo
  advance_command it = elim (it.stream) [
    | none ↦ it
    | some s ↦
        let off = (it.cmd_off + it.cmd_size) % 2 ^ 32 in
        let (_, s1) = seek d off s in
        let (cmd, s2) = get d w32 it.cmd s1 in
        let (cmd_size, s3) = get d w32 it.cmd_size s2 in
        if efo it then it else record {
          idx = (it.idx + 1) % 2 ^ 32;
          cmd = cmd;
          cmd_size = cmd_size;
          cmd_off = off;
          end = it.end;
          stream = some s3;
        }
  ]

  -- The loop of `MachOUnitLoadCommands::_load`: the type of each command and the size of its data.
  unfoldable pub walk : ℕ → Iterator S → List (ℕ × ℕ) → List (ℕ × ℕ)
  walk zero it commands = commands
  walk (suc fuel) it commands =
      let further = walk fuel (advance_command it) (commands ++ ((it.cmd, data_size it) ∷ [])) in
      if efo it then commands else further

  -- `held` is `mCommands`, which is not cleared.
  unfoldable pub load_commands :
      Option (Stream S) → ℕ → ℕ → List (ℕ × ℕ) → ResultCode × List (ℕ × ℕ)
  load_commands opened off cmd_count held =
      (success, walk cmd_count (begin opened off cmd_count) held)

  -- `MachOUnitMinOSVersion::_load`: the first command of the two kinds.
  unfoldable pub find_version : ℕ → Iterator S → MinVersion → MinVersion
  find_version zero it held = held
  find_version (suc fuel) it held =
      let further = find_version fuel (advance_command it) held in
      if efo it
      then held
      else if it.cmd == 0x24 || it.cmd == 0x25
      then elim (it.stream) [
        | none ↦ held
        | some s ↦
            let (version, s1) = get d w32 held.version s in
            let (sdk, _) = get d w32 held.sdk s1 in
            record {
              version = version;
              sdk = sdk;
              os_type = if it.cmd == 0x24 then mac_os else iphone_os;
            }
      ]
      else further

  unfoldable pub load_version : Option (Stream S) → ℕ → ℕ → MinVersion → ResultCode × MinVersion
  load_version opened off cmd_count held =
      (success, find_version cmd_count (begin opened off cmd_count) held)

  -- `MachOUnitUUID::_load`: the text of the data of the first command that is a UUID, read into a buffer
  -- of zeros. Its loop over the bytes is that of `UUIDMem2Str`.
  unfoldable pub find_uuid : ℕ → Iterator S → List ℕ → ResultCode × List ℕ
  find_uuid zero it held = (fail, held)
  find_uuid (suc fuel) it held =
      let further = find_uuid fuel (advance_command it) held in
      if efo it
      then (fail, held)
      else if it.cmd == 0x1b
      then elim (it.stream) [
        | none ↦ (fail, held)
        | some s ↦
            let (bytes, _) = read d (data_size it) s in
            let text = uuid_mem2str (bytes ++ replicate (data_size it - length bytes) 0) in
            (if length text == 0 then fail else success, text)
      ]
      else further

  unfoldable pub load_uuid : Option (Stream S) → ℕ → ℕ → List ℕ → ResultCode × List ℕ
  load_uuid opened off cmd_count held = find_uuid cmd_count (begin opened off cmd_count) held
