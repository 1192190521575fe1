-- ===== src/Dwarf/Lines/Decode/Extended.antt =====
-- What `CDWARFLineTable::parse` decodes of the bytes of an extended opcode.
use mach_olib.Common.{ℕ, ◌^◌, ◌<◌, ◌≡◌, refl, ap, ◌∙◌, arith, List, ◌∷◌, ◌++◌}
use mach_olib.Io.Platform.{Platform}
use mach_olib.Io.Stream.{Device, Stream, Width, w8, w32, w64, get}
use mach_olib.Io.Stream.Laws.{IsReader, rest, IsOpen}
use mach_olib.Io.Stream.Images.{image, get_next}
use mach_olib.Io.Stream.Onward.{IsOnward, trans-IsOnward, get-IsOnward}
use mach_olib.Io.Leb.Onward.{read_uleb128-IsOnward}
use mach_olib.Io.Leb.{read_uleb128}
use mach_olib.Io.Leb.Groups.{leb_bytes}
use mach_olib.Io.Leb.Unsigned.{read_uleb128-value}
use mach_olib.Dwarf.Lines.{Prologue, set_address, end_sequence}
use mach_olib.Dwarf.Lines.Decode.{address_operand, decode_extended, decode}
use mach_olib.Dwarf.Lines.Decode.Codes.{first}
use mach_olib.Dwarf.Lines.Decode.Operands.{Decoded}

module _ (p : Platform) {S : Type 0} (d : Device S) (r : IsReader d) (unset : Width → ℕ)
    (prologue : Prologue) (lengths : List ℕ) where
  -- The length and the code of an extended opcode.
  record Extended (n b : ℕ) (back : List ℕ) (s t : Stream S) : Type 0 where
    len : (read_uleb128 p d (get d w8 (unset w8) s).1).0.1 ≡ n
    sub_opcode : (get d w8 (unset w8) (read_uleb128 p d (get d w8 (unset w8) s).1).1).0 ≡ b
    state : (get d w8 (unset w8) (read_uleb128 p d (get d w8 (unset w8) s).1).1).1 ≡ t
    extended_opcode :
        decode p d unset prologue lengths s
        ≡ decode_extended p d unset prologue lengths (get d w8 (unset w8) s).1
    behind : rest d r t ≡ back
    onward : IsOnward d r s t

  code-Extended :
      (n b : ℕ) (back : List ℕ) (s : Stream S)
      → n < 128
      → IsOpen d r s
      → rest d r s ≡ 0 ∷ n ∷ b ∷ back
      → Extended n b back s (get d w8 (unset w8) (read_uleb128 p d (get d w8 (unset w8) s).1).1).1
  code-Extended n b back s h v e =
      let one = first p d r unset prologue lengths 0 (n ∷ b ∷ back) s v e in
      let s1 : Stream S = (get d w8 (unset w8) s).1 in
      let (_, len, behind, order, still) =
        read_uleb128-value p d r 0 n s1 (b ∷ back) (omega arith) (omega arith) one.onward.open_still
          (one.behind ∙ (unfold leb_bytes in refl)) in
      let s2 : Stream S = (read_uleb128 p d s1).1 in
      let three = first p d r unset prologue lengths b back s2 still behind in
      record {
        len = len ∙ omega arith;
        sub_opcode = three.value;
        state = refl;
        extended_opcode = unfold decode in rw one.value;
        behind = three.behind;
        onward = trans-IsOnward d r one.onward (
            trans-IsOnward d r (read_uleb128-IsOnward p d r s1 one.onward.open_still) three.onward);
      }

  pub end_sequence-Decoded :
      (back : List ℕ) (s : Stream S)
      → IsOpen d r s
      → rest d r s ≡ 0 ∷ 1 ∷ 1 ∷ back
      → Decoded p d r unset prologue lengths end_sequence back s
  unfolding decode_extended
  end_sequence-Decoded back s v e =
      let x = code-Extended 1 1 back s (omega arith) v e in
      rw (x.extended_opcode, x.sub_opcode)
        (record { opcode = refl; no_file = refl; behind = x.behind; onward = x.onward })

  pub address32-Decoded :
      (a : ℕ) (back : List ℕ) (s : Stream S)
      → a < 2 ^ 32
      → IsOpen d r s
      → rest d r s ≡ 0 ∷ 5 ∷ 2 ∷ (image s.encoding w32 a ++ back)
      → Decoded p d r unset prologue lengths (set_address a) back s
  unfolding decode_extended address_operand
  address32-Decoded a back s h v e =
      let x = code-Extended 5 2 (image s.encoding w32 a ++ back) s (omega arith) v e in
      let t : Stream S = (get d w8 (unset w8) (read_uleb128 p d (get d w8 (unset w8) s).1).1).1 in
      let two =
        get_next d r w32 a (unset w32) s.encoding t back h x.onward.order x.onward.open_still
          x.behind in
      rw (x.extended_opcode, x.sub_opcode, x.len)
        (record {
          opcode = ap set_address two.value;
          no_file = refl;
          behind = two.behind;
          onward =
              trans-IsOnward d r x.onward (get-IsOnward d r w32 (unset w32) t x.onward.open_still);
        })

  pub address64-Decoded :
      (a : ℕ) (back : List ℕ) (s : Stream S)
      → a < 2 ^ 64
      → IsOpen d r s
      → rest d r s ≡ 0 ∷ 9 ∷ 2 ∷ (image s.encoding w64 a ++ back)
      → Decoded p d r unset prologue lengths (set_address a) back s
  unfolding decode_extended address_operand
  address64-Decoded a back s h v e =
      let x = code-Extended 9 2 (image s.encoding w64 a ++ back) s (omega arith) v e in
      let t : Stream S = (get d w8 (unset w8) (read_uleb128 p d (get d w8 (unset w8) s).1).1).1 in
      let two =
        get_next d r w64 a (unset w64) s.encoding t back h x.onward.order x.onward.open_still
          x.behind in
      rw (x.extended_opcode, x.sub_opcode, x.len)
        (record {
          opcode = ap set_address two.value;
          no_file = refl;
          behind = two.behind;
          onward =
              trans-IsOnward d r x.onward (get-IsOnward d r w64 (unset w64) t x.onward.open_still);
        })
