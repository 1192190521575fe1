-- ===== src/Io/Leb.antt =====
-- `read_uleb128` and `read_sleb128` of io/stream_base.cpp: numbers in groups of seven bits. The shifts
-- are made in 32 bits; by 32 or more they are undefined, and the platform gives their value.
pub mod Groups
pub mod Loop
pub mod Unsigned
pub mod Signed
pub mod Onward
pub mod Images
use mach_olib.Common.{
  ℕ, zero, suc, ◌+◌, ◌-◌, ◌*◌, ◌%◌, ◌^◌, bit_and, bit_or, ◌==◌, ltb, if◌then◌else◌, not, ◌&&◌,
}
use mach_olib.Io.Platform.{Platform}
use mach_olib.Io.Stream.{Device, Action, w8, t_read, size, position}

-- The locals of both functions after the loop.
pub record Locals : Type 0 where
  pub chk : ℕ
  pub shift : ℕ
  pub byte : ℕ
  pub out : ℕ

module _ (p : Platform) where
  -- `(byte & 0x7fU) << shift`
  unfoldable pub group : ℕ → ℕ → ℕ
  group byte shift =
      if ltb shift 32
      then bit_and byte 0x7f * 2 ^ shift % 2 ^ 32
      else p.wide_shift (bit_and byte 0x7f) shift

  -- `-(1 << shift)`, as the 64 bits that it has in `out_`
  unfoldable pub sign_bits : ℕ → ℕ
  sign_bits shift = if ltb shift 31 then 2 ^ 64 - 2 ^ shift else p.wide_negated shift

  module _ {S : Type 0} (d : Device S) where
    -- `while (position() < size()) { … }`, the same in both functions. A round takes a byte.
    pub leb_loop : ℕ → Locals → Action S Locals
    leb_loop zero l s = (l, s)
    leb_loop (suc fuel) l s =
        let ((n, b), s') = t_read d w8 l.byte s in
        let l' : Locals = record {
          chk = if ltb 0 n then l.chk + 1 else l.chk;
          shift = l.shift + 7;
          byte = b;
          out = bit_or l.out (group b l.shift);
        } in
        let again = leb_loop fuel l' s' in
        if ltb (position d s) (size d s)
        then (if bit_and b 0x80 == 0 then (l', s') else again)
        else (l, s)

    -- The number of bytes read, and `out_`.
    unfoldable pub read_uleb128 : Action S (ℕ × ℕ)
    unfolding leb_loop group
    read_uleb128 s =
        let start : Locals = record { chk = 0; shift = 0; byte = 0; out = 0 } in
        let (l, s') = leb_loop (size d s) start s in ((l.chk, l.out), s')

    unfoldable pub read_sleb128 : Action S (ℕ × ℕ)
    unfolding leb_loop group sign_bits
    read_sleb128 s =
        let start : Locals = record { chk = 0; shift = 0; byte = 0; out = 0 } in
        let (l, s') = leb_loop (size d s) start s in
        let negative = ltb l.shift 64 && not (bit_and l.byte 0x40 == 0) in
        ((l.chk, if negative then bit_or l.out (sign_bits l.shift) else l.out), s')
