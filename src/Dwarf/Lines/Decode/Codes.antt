-- ===== src/Dwarf/Lines/Decode/Codes.antt =====
-- The bytes of the opcodes of a line program, and what is decoded of them. An operand of at most five
-- groups of seven bits is taken modulo 2^32, and one with a sign has at most four.
use mach_olib.Common.{
  ℕ, suc, ◌%◌, ◌^◌, ◌≤◌, ◌<◌, ◌≡◌, refl, ap, arith, ◌==◌, lt→ltb, false, Option, none, List, [],
  ◌∷◌, ◌++◌, length,
}
use mach_olib.Io.Platform.{Platform}
use mach_olib.Io.Stream.{Device, Stream, Encoding, Width, w8, w16, w32, w64, get}
use mach_olib.Io.Stream.Laws.{IsReader, rest, IsOpen}
use mach_olib.Io.Stream.Bytes.{t_read-Reads}
use mach_olib.Io.Stream.Images.{image}
use mach_olib.Io.Stream.Onward.{IsOnward, t_read-IsOnward}
use mach_olib.Io.Leb.Onward.{read_uleb128-IsOnward}
use mach_olib.Io.Leb.Groups.{leb_bytes}
use mach_olib.Io.Leb.Unsigned.{read_uleb128-value}
use mach_olib.Io.Leb.Signed.{extended}
use mach_olib.Dwarf.Lines.{
  Prologue, Opcode, special, copy, advance_pc, advance_line, set_file, set_column, fixed_advance_pc,
  set_isa, set_address, negate_stmt, set_basic_block, const_add_pc, set_prologue_end,
  set_epilogue_begin, end_sequence,
}
use mach_olib.Dwarf.Lines.Decode.{FileNameEntry, uleb_operand, decode_standard, decode}

-- The bytes that stand for an opcode in a program whose special opcodes begin at `opcode_base`.
pub data IsCode (e : Encoding) (opcode_base : ℕ) : Opcode → List ℕ → Type 0 where
  code_special : (n : ℕ) → opcode_base ≤ n → IsCode e opcode_base (special n) (n ∷ [])
  code_copy : IsCode e opcode_base copy (1 ∷ [])
  code_advance_pc :
      (k v : ℕ)
      → k < 5
      → v < 128 ^ suc k
      → IsCode e opcode_base (advance_pc (v % 2 ^ 32)) (2 ∷ leb_bytes k v)
  code_advance_line :
      (k v : ℕ)
      → k < 4
      → v < 128 ^ suc k
      → IsCode e opcode_base (advance_line (extended k v)) (3 ∷ leb_bytes k v)
  code_set_file :
      (k v : ℕ)
      → k < 5
      → v < 128 ^ suc k
      → IsCode e opcode_base (set_file (v % 2 ^ 32)) (4 ∷ leb_bytes k v)
  code_set_column :
      (k v : ℕ)
      → k < 5
      → v < 128 ^ suc k
      → IsCode e opcode_base (set_column (v % 2 ^ 32)) (5 ∷ leb_bytes k v)
  code_negate_stmt : IsCode e opcode_base negate_stmt (6 ∷ [])
  code_set_basic_block : IsCode e opcode_base set_basic_block (7 ∷ [])
  code_const_add_pc : IsCode e opcode_base const_add_pc (8 ∷ [])
  code_fixed_advance_pc :
      (v : ℕ) → v < 2 ^ 16 → IsCode e opcode_base (fixed_advance_pc v) (9 ∷ image e w16 v)
  code_set_prologue_end : IsCode e opcode_base set_prologue_end (10 ∷ [])
  code_set_epilogue_begin : IsCode e opcode_base set_epilogue_begin (11 ∷ [])
  code_set_isa :
      (k v : ℕ)
      → k < 5
      → v < 128 ^ suc k
      → IsCode e opcode_base (set_isa (v % 2 ^ 32)) (12 ∷ leb_bytes k v)
  code_end_sequence : IsCode e opcode_base end_sequence (0 ∷ 1 ∷ 1 ∷ [])
  code_address32 :
      (v : ℕ) → v < 2 ^ 32 → IsCode e opcode_base (set_address v) (0 ∷ 5 ∷ 2 ∷ image e w32 v)
  code_address64 :
      (v : ℕ) → v < 2 ^ 64 → IsCode e opcode_base (set_address v) (0 ∷ 9 ∷ 2 ∷ image e w64 v)

pub code-nonempty :
    (e : Encoding) (base : ℕ) (op : Opcode) (bytes : List ℕ)
    → IsCode e base op bytes
    → 0 < length bytes
code-nonempty e base _ _ (code_special n h) = omega arith
code-nonempty e base _ _ code_copy = omega arith
code-nonempty e base _ _ (code_advance_pc k v hk hv) = omega arith
code-nonempty e base _ _ (code_advance_line k v hk hv) = omega arith
code-nonempty e base _ _ (code_set_file k v hk hv) = omega arith
code-nonempty e base _ _ (code_set_column k v hk hv) = omega arith
code-nonempty e base _ _ code_negate_stmt = omega arith
code-nonempty e base _ _ code_set_basic_block = omega arith
code-nonempty e base _ _ code_const_add_pc = omega arith
code-nonempty e base _ _ (code_fixed_advance_pc v h) = omega arith
code-nonempty e base _ _ code_set_prologue_end = omega arith
code-nonempty e base _ _ code_set_epilogue_begin = omega arith
code-nonempty e base _ _ (code_set_isa k v hk hv) = omega arith
code-nonempty e base _ _ code_end_sequence = omega arith
code-nonempty e base _ _ (code_address32 v h) = omega arith
code-nonempty e base _ _ (code_address64 v h) = omega arith

module _ (p : Platform) {S : Type 0} (d : Device S) (r : IsReader d) (unset : Width → ℕ)
    (prologue : Prologue) (lengths : List ℕ) where
  -- An opcode was decoded, without a file, and the stream stands behind it.
  pub record Decodes (op : Opcode) (back : List ℕ) (s : Stream S)
      (out : (Opcode × Option FileNameEntry) × Stream S) : Type 0 where
    pub opcode : out.0.0 ≡ op
    pub no_file : out.0.1 ≡ none
    pub behind : rest d r out.1 ≡ back
    pub onward : IsOnward d r s out.1

  -- The first byte of an opcode.
  pub record First (b : ℕ) (back : List ℕ) (s : Stream S) (out : ℕ × Stream S) : Type 0 where
    pub value : out.0 ≡ b
    pub behind : rest d r out.1 ≡ back
    pub onward : IsOnward d r s out.1

  pub first :
      (b : ℕ) (back : List ℕ) (s : Stream S)
      → IsOpen d r s
      → rest d r s ≡ b ∷ back
      → First b back s (get d w8 (unset w8) s)
  unfolding get
  first b back s v e =
      let one = t_read-Reads d r (unset w8) b back s v e in
      record {
        value = one.byte;
        behind = one.behind;
        onward = t_read-IsOnward d r w8 (unset w8) s v;
      }

  pub uleb_operand-Decodes :
      (op : ℕ → Opcode) (k v : ℕ) (back : List ℕ) (s : Stream S)
      → k < 5
      → v < 128 ^ suc k
      → IsOpen d r s
      → rest d r s ≡ leb_bytes k v ++ back
      → Decodes (op (v % 2 ^ 32)) back s (uleb_operand p d unset prologue lengths op s)
  unfolding uleb_operand
  uleb_operand-Decodes op k v back s hk hv open_s e =
      let (_, value, behind, _, _) = read_uleb128-value p d r k v s back hk hv open_s e in
      record {
        opcode = ap op value;
        no_file = refl;
        behind = behind;
        onward = read_uleb128-IsOnward p d r s open_s;
      }

  -- A standard opcode is decoded as such.
  pub standard :
      (b : ℕ) (s : Stream S)
      → (get d w8 (unset w8) s).0 ≡ b
      → 0 < b
      → b < prologue.opcode_base
      → decode p d unset prologue lengths s
        ≡ decode_standard p d unset prologue lengths b (get d w8 (unset w8) s).1
  unfolding decode
  standard b s e h k =
      let nonzero : (b == 0) ≡ false = ground arith in
      rw (e, nonzero, lt→ltb b prologue.opcode_base k)
