-- ===== src/Dwarf/FormValue/Onward.antt =====
-- `parse` of dwarf/CDWARFFormValue.cpp on a readable stream that holds any bytes.
use mach_olib.Common.{ℕ, zero, suc, ◌+◌, ◌==◌, leb, ◌&&◌, Bool-cases, inl, inr}
use mach_olib.Io.Platform.{Platform}
use mach_olib.Io.Stream.{Device, Stream, w8, w16, w32, w64, size, position}
use mach_olib.Io.Stream.Laws.{IsReader, IsOpen}
use mach_olib.Io.Stream.Onward.{
  IsOnward, refl-IsOnward, trans-IsOnward, read-IsOnward, get-IsOnward,
}
use mach_olib.Io.Substream.{add64}
use mach_olib.Io.Leb.Onward.{read_uleb128-IsOnward, read_sleb128-IsOnward}
use mach_olib.Io.Text.Onward.{read_sz-IsOnward}
use mach_olib.Dwarf.Forms.{
  Form, invalid, addr, block2, block4, data2, data4, data8, string, block, block1, data1, flag,
  sdata, strp, udata, ref_addr, ref1, ref2, ref4, ref8, ref_udata, indirect, sec_offset, exprloc,
  flag_present, ref_sig8, other,
}
use mach_olib.Dwarf.FormValue.{
  FormValue, Flags, Layout, as_uint64, address_width, reference_width, parse_word, parse_uleb,
  parse_form, parse_loop, parse_block, parse,
}

module _ (p : Platform) {S : Type 0} (d : Device S) (r : IsReader d) (c : Layout) where
  pub parse_form-IsOnward :
      (form : Form) (val : FormValue) (s : Stream S)
      → IsOpen d r s
      → IsOnward d r s (parse_form p d c form val s).1
  unfolding parse_form parse_word parse_uleb
  parse_form-IsOnward addr val s v = get-IsOnward d r (address_width p d c c.addr_size) 0 s v
  parse_form-IsOnward block2 val s v = get-IsOnward d r w16 0 s v
  parse_form-IsOnward block4 val s v = get-IsOnward d r w32 0 s v
  parse_form-IsOnward data2 val s v = get-IsOnward d r w16 0 s v
  parse_form-IsOnward data4 val s v = get-IsOnward d r w32 0 s v
  parse_form-IsOnward data8 val s v = get-IsOnward d r w64 0 s v
  parse_form-IsOnward string val s v = read_sz-IsOnward d r 3 s v
  parse_form-IsOnward exprloc val s v = read_uleb128-IsOnward p d r s v
  parse_form-IsOnward block val s v = read_uleb128-IsOnward p d r s v
  parse_form-IsOnward block1 val s v = get-IsOnward d r w8 0 s v
  parse_form-IsOnward data1 val s v = get-IsOnward d r w8 0 s v
  parse_form-IsOnward flag val s v = get-IsOnward d r w8 0 s v
  parse_form-IsOnward sdata val s v = read_sleb128-IsOnward p d r s v
  parse_form-IsOnward strp val s v = get-IsOnward d r w32 0 s v
  parse_form-IsOnward udata val s v = read_uleb128-IsOnward p d r s v
  parse_form-IsOnward ref_addr val s v = get-IsOnward d r (reference_width p d c) 0 s v
  parse_form-IsOnward ref1 val s v = get-IsOnward d r w8 0 s v
  parse_form-IsOnward ref2 val s v = get-IsOnward d r w16 0 s v
  parse_form-IsOnward ref4 val s v = get-IsOnward d r w32 0 s v
  parse_form-IsOnward ref8 val s v = get-IsOnward d r w64 0 s v
  parse_form-IsOnward ref_udata val s v = read_uleb128-IsOnward p d r s v
  parse_form-IsOnward indirect val s v = read_uleb128-IsOnward p d r s v
  parse_form-IsOnward sec_offset val s v = get-IsOnward d r w32 0 s v
  parse_form-IsOnward flag_present val s v = refl-IsOnward d r s v
  parse_form-IsOnward ref_sig8 val s v = get-IsOnward d r w64 0 s v
  parse_form-IsOnward invalid val s v = refl-IsOnward d r s v
  parse_form-IsOnward (other n) val s v = refl-IsOnward d r s v

  parse_loop-IsOnward :
      (fuel : ℕ) (val : FormValue) (s : Stream S)
      → IsOpen d r s
      → IsOnward d r s (parse_loop p d c fuel val s).1
  unfolding parse_loop
  parse_loop-IsOnward zero val s v = refl-IsOnward d r s v
  parse_loop-IsOnward (suc fuel) val s v =
      let out = parse_form p d c val.form val s in
      let one = parse_form-IsOnward val.form val s v in
      elim (Bool-cases (out.0.0.is_indirect && out.0.0.ret)) [
        | inl e ↦
            rw e (trans-IsOnward d r one (parse_loop-IsOnward fuel out.0.1 out.1 one.open_still))
        | inr e ↦ rw e one
      ]

  pub parse_block-IsOnward :
      (flags : Flags) (val : FormValue) (s : Stream S)
      → IsOpen d r s
      → IsOnward d r s (parse_block p d c (flags, val) s).1
  unfolding parse_block
  parse_block-IsOnward flags val s v =
      let uval : ℕ = as_uint64 p val in
      let stay = refl-IsOnward d r s v in
      elim (Bool-cases (flags.is_block && flags.ret)) [
        | inr e ↦ rw e stay
        | inl e ↦ elim (Bool-cases (leb (add64 (position d s) uval) (size d s))) [
          | inr e' ↦ rw (e, e') stay
          | inl e' ↦ elim (Bool-cases (uval == 0)) [
            | inl e'' ↦ rw (e, e', e'') stay
            | inr e'' ↦ rw (e, e', e'') (read-IsOnward d r uval s v)
          ]
        ]
      ]

  -- `parse` of any value, whatever stands in a readable stream: the content and the byte order stay,
  -- the stream stays readable, and the position does not go back.
  pub parse-IsOnward :
      (val : FormValue) (s : Stream S) → IsOpen d r s → IsOnward d r s (parse p d c val s).1
  unfolding parse
  parse-IsOnward val s v =
      let out = parse_loop p d c (size d s + 2) val s in
      let loop = parse_loop-IsOnward (size d s + 2) val s v in
      trans-IsOnward d r loop (parse_block-IsOnward out.0.0 out.0.1 out.1 loop.open_still)
