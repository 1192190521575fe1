-- ===== src/Dwarf/Lines/Decode/Rounds.antt =====
-- The loop of `CDWARFLineTable::parse` over the bytes of a line program.
use mach_olib.Common.{
  ℕ, zero, suc, ◌+◌, ◌<◌, ◌≡◌, sym, ap, ◌∙◌, subst, arith, ltb, lt→ltb, le→ltb, true, false, Option,
  none, some, List, [], ◌∷◌, ◌++◌, length, length-append,
}
use mathlib.Core.List.{append_assoc}
use mach_olib.Io.Platform.{Platform}
use mach_olib.Io.Stream.{Device, Stream, Encoding, Width, position}
use mach_olib.Io.Stream.Laws.{IsReader, rest, IsOpen, size-rest}
use mach_olib.Io.Stream.Onward.{IsOnward, refl-IsOnward, trans-IsOnward, size-onward}
use mach_olib.Dwarf.Lines.{Prologue, Opcode, run, run_all}
use mach_olib.Dwarf.Lines.Decode.{LineState, apply, decode, decode_all}
use mach_olib.Dwarf.Lines.Decode.Codes.{IsCode, code-nonempty}
use mach_olib.Dwarf.Lines.Decode.Opcodes.{decode-Decoded}

-- The bytes of opcodes, one behind the other.
pub data IsProgram (e : Encoding) (opcode_base : ℕ) : List Opcode → List ℕ → Type 0 where
  done : IsProgram e opcode_base [] []
  next :
      (op : Opcode) (ops : List Opcode) (first others : List ℕ)
      → IsCode e opcode_base op first
      → IsProgram e opcode_base ops others
      → IsProgram e opcode_base (op ∷ ops) (first ++ others)

module _ (p : Platform) {S : Type 0} (d : Device S) (r : IsReader d) (unset : Width → ℕ)
    (prologue : Prologue) (lengths : List ℕ) where
  -- The loop ended with these registers and these files, and the stream stands before `back`.
  pub record Runs (l : LineState) (back : List ℕ) (s : Stream S)
      (out : Option (LineState × Stream S)) : Type 0 where
    pub end : Stream S
    pub result : out ≡ some (l, end)
    pub behind : rest d r end ≡ back
    pub onward : IsOnward d r s end

  -- A round that decodes an opcode without a file.
  round :
      (fuel end_offset : ℕ) (op : Opcode) (l : LineState) (s : Stream S)
      → ltb (position d s) end_offset ≡ true
      → (decode p d unset prologue lengths s).0.0 ≡ op
      → (decode p d unset prologue lengths s).0.1 ≡ none
      → decode_all p d unset prologue lengths (suc fuel) end_offset l s
        ≡ decode_all p d unset prologue lengths fuel end_offset
            (record l { machine = run p prologue op l.machine })
            (decode p d unset prologue lengths s).1
  unfolding decode_all apply
  round fuel end_offset op l s inside opcode no_file = rw inside (λ i.
      decode_all p d unset prologue lengths fuel end_offset
        (apply p d unset prologue lengths (opcode i, no_file i) l)
        (decode p d unset prologue lengths s).1)

  stop :
      (fuel end_offset : ℕ) (l : LineState) (s : Stream S)
      → ltb (position d s) end_offset ≡ false
      → decode_all p d unset prologue lengths (suc fuel) end_offset l s ≡ some (l, s)
  unfolding decode_all
  stop fuel end_offset l s outside = rw outside

  -- Where the bytes of opcodes stand in a readable stream up to the end that the header names, and the
  -- line range is not 0, the loop of `parse` ends with one round more than there are opcodes, with the rows and the registers
  -- that these opcodes make one after the other and the files as they were, and goes behind the bytes.
  -- The twelve standard opcodes lie below the opcode base. The operands are of at most five groups and
  -- taken modulo 2^32, or of at most four where they have a sign, and the opcodes do not define files.
  pub decode_all-run_all :
      (ops : List Opcode) (bytes back : List ℕ) (fuel end_offset : ℕ) (l : LineState) (s : Stream S)
      → 12 < prologue.opcode_base
      → 0 < prologue.line_range
      → IsProgram s.encoding prologue.opcode_base ops bytes
      → IsOpen d r s
      → rest d r s ≡ bytes ++ back
      → position d s + length bytes ≡ end_offset
      → length ops < fuel
      → Runs
          (record l { machine = run_all p prologue ops l.machine })
          back
          s
          (decode_all p d unset prologue lengths fuel end_offset l s)
  unfolding run_all
  decode_all-run_all ops bytes back zero end_offset l s base divides prog v e at h =
      absurd (omega arith)
  decode_all-run_all _ _ back (suc fuel) end_offset l s base divides done v e at h = record {
    end = s;
    result = stop fuel end_offset l s (le→ltb (position d s) end_offset (omega (arith, at)));
    behind = e;
    onward = refl-IsOnward d r s v;
  }
  decode_all-run_all _ _ back (suc fuel) end_offset l s base divides
        (next op ops first others code prog) v e at h =
      let filled : 0 < length first = code-nonempty s.encoding prologue.opcode_base op first code in
      let total : length (first ++ others) ≡ length first + length others =
        length-append first others in
      let standing : rest d r s ≡ first ++ (others ++ back) = e ∙ append_assoc first others back in
      let one =
        decode-Decoded p d r unset prologue lengths op first (others ++ back) s base code v
          standing in
      let t : Stream S = (decode p d unset prologue lengths s).1 in
      let inside : ltb (position d s) end_offset ≡ true =
        lt→ltb (position d s) end_offset (omega (arith, at, total)) in
      let moved : position d t + length others ≡ end_offset = omega (
        arith,
        at,
        total,
        size-rest d r s v,
        size-rest d r t one.onward.open_still,
        size-onward d r v one.onward,
        ap length standing,
        ap length one.behind,
        length-append first (others ++ back),
      ) in
      let later =
        decode_all-run_all ops others back fuel end_offset
          (record l { machine = run p prologue op l.machine }) t base divides
          (subst (λ o. IsProgram o prologue.opcode_base ops others) (sym one.onward.order) prog)
          one.onward.open_still one.behind moved (omega arith) in
      record {
        end = later.end;
        result = round fuel end_offset op l s inside one.opcode one.no_file ∙ later.result;
        behind = later.behind;
        onward = trans-IsOnward d r one.onward later.onward;
      }
