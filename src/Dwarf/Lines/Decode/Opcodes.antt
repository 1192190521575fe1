-- ===== src/Dwarf/Lines/Decode/Opcodes.antt =====
-- What `CDWARFLineTable::parse` decodes of the bytes of any opcode.
use mach_olib.Common.{ℕ, ◌≤◌, ◌<◌, ◌≡◌, refl, arith, ◌==◌, le→ltb, false, List, ◌∷◌, ◌++◌}
use mach_olib.Io.Platform.{Platform}
use mach_olib.Io.Stream.{Device, Stream, Width}
use mach_olib.Io.Stream.Laws.{IsReader, rest, IsOpen}
use mach_olib.Dwarf.Lines.{
  Prologue, Opcode, special, copy, advance_pc, set_file, set_column, set_isa, negate_stmt,
  set_basic_block, const_add_pc, set_prologue_end, set_epilogue_begin,
}
use mach_olib.Dwarf.Lines.Decode.{decode_standard, decode}
use mach_olib.Dwarf.Lines.Decode.Codes.{
  IsCode, code_special, code_copy, code_advance_pc, code_advance_line, code_set_file,
  code_set_column, code_negate_stmt, code_set_basic_block, code_const_add_pc, code_fixed_advance_pc,
  code_set_prologue_end, code_set_epilogue_begin, code_set_isa, code_end_sequence, code_address32,
  code_address64, first,
}
use mach_olib.Dwarf.Lines.Decode.Operands.{
  Decoded, simple, operand, advance_line-Decoded, fixed_advance_pc-Decoded,
}
use mach_olib.Dwarf.Lines.Decode.Extended.{
  end_sequence-Decoded, address32-Decoded, address64-Decoded,
}

module _ (p : Platform) {S : Type 0} (d : Device S) (r : IsReader d) (unset : Width → ℕ)
    (prologue : Prologue) (lengths : List ℕ) where
  special-Decoded :
      (n : ℕ) (back : List ℕ) (s : Stream S)
      → 0 < prologue.opcode_base
      → prologue.opcode_base ≤ n
      → IsOpen d r s
      → rest d r s ≡ n ∷ back
      → Decoded p d r unset prologue lengths (special n) back s
  unfolding decode
  special-Decoded n back s base h v e =
      let one = first p d r unset prologue lengths n back s v e in
      let nonzero : (n == 0) ≡ false = ground arith in
      rw (one.value, nonzero, le→ltb n prologue.opcode_base h)
        (record { opcode = refl; no_file = refl; behind = one.behind; onward = one.onward })

  -- Where the bytes of an opcode stand, it is decoded, and the stream goes behind them. The twelve
  -- standard opcodes lie below the base.
  pub decode-Decoded :
      (op : Opcode) (bytes back : List ℕ) (s : Stream S)
      → 12 < prologue.opcode_base
      → IsCode s.encoding prologue.opcode_base op bytes
      → IsOpen d r s
      → rest d r s ≡ bytes ++ back
      → Decoded p d r unset prologue lengths op back s
  unfolding decode_standard
  decode-Decoded _ _ back s base (code_special n h) v e =
      special-Decoded n back s (omega arith) h v e
  decode-Decoded _ _ back s base code_copy v e =
      simple p d r unset prologue lengths 1 copy back s (omega arith) (omega arith) (λ t. refl) v e
  decode-Decoded _ _ back s base code_negate_stmt v e =
      simple p d r unset prologue lengths 6 negate_stmt back s (omega arith) (omega arith)
        (λ t. refl) v e
  decode-Decoded _ _ back s base code_set_basic_block v e =
      simple p d r unset prologue lengths 7 set_basic_block back s (omega arith) (omega arith)
        (λ t. refl) v e
  decode-Decoded _ _ back s base code_const_add_pc v e =
      simple p d r unset prologue lengths 8 const_add_pc back s (omega arith) (omega arith)
        (λ t. refl) v e
  decode-Decoded _ _ back s base code_set_prologue_end v e =
      simple p d r unset prologue lengths 10 set_prologue_end back s (omega arith) (omega arith)
        (λ t. refl) v e
  decode-Decoded _ _ back s base code_set_epilogue_begin v e =
      simple p d r unset prologue lengths 11 set_epilogue_begin back s (omega arith) (omega arith)
        (λ t. refl) v e
  decode-Decoded _ _ back s base (code_advance_pc k x hk hx) v e =
      operand p d r unset prologue lengths 2 advance_pc k x back s (omega arith) (omega arith)
        (λ t. refl) hk hx v e
  decode-Decoded _ _ back s base (code_set_file k x hk hx) v e =
      operand p d r unset prologue lengths 4 set_file k x back s (omega arith) (omega arith)
        (λ t. refl) hk hx v e
  decode-Decoded _ _ back s base (code_set_column k x hk hx) v e =
      operand p d r unset prologue lengths 5 set_column k x back s (omega arith) (omega arith)
        (λ t. refl) hk hx v e
  decode-Decoded _ _ back s base (code_set_isa k x hk hx) v e =
      operand p d r unset prologue lengths 12 set_isa k x back s (omega arith) (omega arith)
        (λ t. refl) hk hx v e
  decode-Decoded _ _ back s base (code_advance_line k x hk hx) v e =
      advance_line-Decoded p d r unset prologue lengths k x back s (omega arith) hk hx v e
  decode-Decoded _ _ back s base (code_fixed_advance_pc x h) v e =
      fixed_advance_pc-Decoded p d r unset prologue lengths x back s (omega arith) h v e
  decode-Decoded _ _ back s base code_end_sequence v e =
      end_sequence-Decoded p d r unset prologue lengths back s v e
  decode-Decoded _ _ back s base (code_address32 x h) v e =
      address32-Decoded p d r unset prologue lengths x back s h v e
  decode-Decoded _ _ back s base (code_address64 x h) v e =
      address64-Decoded p d r unset prologue lengths x back s h v e
