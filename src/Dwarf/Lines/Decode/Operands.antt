-- ===== src/Dwarf/Lines/Decode/Operands.antt =====
-- What `CDWARFLineTable::parse` decodes of the bytes of an opcode.
use mach_olib.Common.{ℕ, suc, ◌%◌, ◌^◌, ◌<◌, ◌≡◌, refl, ap, arith, none, List, ◌∷◌, ◌++◌}
use mach_olib.Io.Platform.{Platform}
use mach_olib.Io.Stream.{Device, Stream, Width, w8, w16, get}
use mach_olib.Io.Stream.Laws.{IsReader, rest, IsOpen}
use mach_olib.Io.Stream.Images.{image, get_next}
use mach_olib.Io.Stream.Onward.{trans-IsOnward, get-IsOnward}
use mach_olib.Io.Leb.Onward.{read_sleb128-IsOnward}
use mach_olib.Io.Leb.Groups.{leb_bytes}
use mach_olib.Io.Leb.Signed.{extended, read_sleb128-value}
use mach_olib.Dwarf.Lines.{Prologue, Opcode, advance_line, fixed_advance_pc}
use mach_olib.Dwarf.Lines.Decode.{uleb_operand, decode_standard, decode}
use mach_olib.Dwarf.Lines.Decode.Codes.{Decodes, first, uleb_operand-Decodes, standard}

module _ (p : Platform) {S : Type 0} (d : Device S) (r : IsReader d) (unset : Width → ℕ)
    (prologue : Prologue) (lengths : List ℕ) where
  abbrev pub Decoded : Opcode → List ℕ → Stream S → Type 0
  Decoded op back s =
      Decodes p d r unset prologue lengths op back s (decode p d unset prologue lengths s)

  -- A standard opcode without operands.
  pub simple :
      (b : ℕ) (op : Opcode) (back : List ℕ) (s : Stream S)
      → 0 < b
      → b < prologue.opcode_base
      → ((t : Stream S) → decode_standard p d unset prologue lengths b t ≡ ((op, none), t))
      → IsOpen d r s
      → rest d r s ≡ b ∷ back
      → Decoded op back s
  simple b op back s h k decoded v e =
      let one = first p d r unset prologue lengths b back s v e in
      rw
        (standard p d r unset prologue lengths b s one.value h k, decoded (get d w8 (unset w8) s).1)
        (record { opcode = refl; no_file = refl; behind = one.behind; onward = one.onward })

  -- One with a number in groups of seven bits.
  pub operand :
      (b : ℕ) (op : ℕ → Opcode) (k x : ℕ) (back : List ℕ) (s : Stream S)
      → 0 < b
      → b < prologue.opcode_base
      → ((t : Stream S)
          → decode_standard p d unset prologue lengths b t
            ≡ uleb_operand p d unset prologue lengths op t)
      → k < 5
      → x < 128 ^ suc k
      → IsOpen d r s
      → rest d r s ≡ b ∷ (leb_bytes k x ++ back)
      → Decoded (op (x % 2 ^ 32)) back s
  operand b op k x back s h base decoded few fits v e =
      let one = first p d r unset prologue lengths b (leb_bytes k x ++ back) s v e in
      let t : Stream S = (get d w8 (unset w8) s).1 in
      let two =
        uleb_operand-Decodes p d r unset prologue lengths op k x back t few fits
          one.onward.open_still one.behind in
      rw (standard p d r unset prologue lengths b s one.value h base, decoded t)
        (record {
          opcode = two.opcode;
          no_file = two.no_file;
          behind = two.behind;
          onward = trans-IsOnward d r one.onward two.onward;
        })

  pub advance_line-Decoded :
      (k x : ℕ) (back : List ℕ) (s : Stream S)
      → 3 < prologue.opcode_base
      → k < 4
      → x < 128 ^ suc k
      → IsOpen d r s
      → rest d r s ≡ 3 ∷ (leb_bytes k x ++ back)
      → Decoded (advance_line (extended k x)) back s
  unfolding decode_standard
  advance_line-Decoded k x back s base hk hx v e =
      let one = first p d r unset prologue lengths 3 (leb_bytes k x ++ back) s v e in
      let t : Stream S = (get d w8 (unset w8) s).1 in
      let (_, value, behind, order, still) =
        read_sleb128-value p d r k x t back hk hx one.onward.open_still one.behind in
      rw (standard p d r unset prologue lengths 3 s one.value (omega arith) base) (record {
        opcode = ap advance_line value;
        no_file = refl;
        behind = behind;
        onward =
            trans-IsOnward d r one.onward (read_sleb128-IsOnward p d r t one.onward.open_still);
      })

  pub fixed_advance_pc-Decoded :
      (x : ℕ) (back : List ℕ) (s : Stream S)
      → 9 < prologue.opcode_base
      → x < 2 ^ 16
      → IsOpen d r s
      → rest d r s ≡ 9 ∷ (image s.encoding w16 x ++ back)
      → Decoded (fixed_advance_pc x) back s
  unfolding decode_standard
  fixed_advance_pc-Decoded x back s base hx v e =
      let one = first p d r unset prologue lengths 9 (image s.encoding w16 x ++ back) s v e in
      let t : Stream S = (get d w8 (unset w8) s).1 in
      let two =
        get_next d r w16 x (unset w16) s.encoding t back hx one.onward.order one.onward.open_still
          one.behind in
      rw (standard p d r unset prologue lengths 9 s one.value (omega arith) base) (record {
        opcode = ap fixed_advance_pc two.value;
        no_file = refl;
        behind = two.behind;
        onward =
            trans-IsOnward d r one.onward
              (get-IsOnward d r w16 (unset w16) t one.onward.open_still);
      })
