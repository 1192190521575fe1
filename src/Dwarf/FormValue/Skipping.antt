-- ===== src/Dwarf/FormValue/Skipping.antt =====
-- `parse` and `Skip` of dwarf/CDWARFFormValue.cpp on the same bytes.
use mach_olib.Common.{ℕ, zero, suc, ◌+◌, ◌^◌, ◌<◌, refl, arith}
use mach_olib.Io.Platform.{Platform}
use mach_olib.Io.Stream.{Device, Stream, Width, w8, w16, w32, w64, size, position}
use mach_olib.Io.Stream.Laws.{IsReader, IsOpen}
use mach_olib.Io.Stream.Onward.{size-onward}
use mach_olib.Io.Stream.Moves.{refl-IsSamePlace}
use mach_olib.Io.Leb.{read_uleb128, read_sleb128}
use mach_olib.Io.Leb.Onward.{read_uleb128-IsOnward, read_sleb128-IsOnward}
use mach_olib.Io.Text.{read_sz}
use mach_olib.Io.Text.Onward.{read_sz-IsOnward}
use mach_olib.Dwarf.Forms.{
  Form, invalid, addr, block2, block4, data2, data4, data8, string, block, block1, data1, flag,
  sdata, strp, udata, ref_addr, ref1, ref2, ref4, ref8, ref_udata, indirect, sec_offset, exprloc,
  flag_present, ref_sig8, other, form_of, type_of,
}
use mach_olib.Dwarf.FormValue.{
  Storage, word, FormValue, Flags, plain, again, Layout, install, uninstall, of_form, address_width,
  reference_width, parse_uleb, parse_form, parse_loop, parse_block, parse,
}
use mach_olib.Dwarf.FormValue.Skip.{skip_uleb, skip_form, skip_loop, skip_block, skip}
use mach_olib.Dwarf.FormValue.Agreement.{
  IsLayout, Agrees, parse_end, skip_end, address-bytes, reference-bytes, fixed, sized_block,
  uleb_block,
}

module _ (p : Platform) {S : Type 0} (d : Device S) (r : IsReader d) (c : Layout)
    (unset : Width → ℕ) where
  agree :
      IsLayout c
      → (fuel : ℕ) (form : Form) (storage : Storage) (flags : Flags) (uval : ℕ) (s : Stream S)
      → IsOpen d r s
      → size d s < 2 ^ 64
      → position d
          (parse_end p d r c unset
            (parse_loop p d c fuel (record { form = form; storage = storage }) s)).1
        < size d s
      → Agrees p d r c unset
          (skip_end p d r c unset
            (skip_loop p d c unset fuel (record { flags = flags; form = form; uval = uval }) s))
          (parse_end p d r c unset
            (parse_loop p d c fuel (record { form = form; storage = storage }) s))
  unfolding parse_loop skip_loop parse_form skip_form skip_uleb parse_uleb parse_block skip_block
  agree lay zero form st fl u s v bound h = record {
    result = refl;
    there = refl-IsSamePlace d r s v;
  }
  agree lay (suc fuel) addr st fl u s v bound h =
      fixed p d r c unset (address_width p d c c.addr_size) c.addr_size addr
        (record { flags = fl; form = addr; uval = u }) s
        (address-bytes p d r c unset c.addr_size lay.addresses) v bound h
  agree lay (suc fuel) block2 st fl u s v bound h =
      sized_block p d r c unset w16 block2 (record { flags = fl; form = block2; uval = u }) s v
        bound h
  agree lay (suc fuel) block4 st fl u s v bound h =
      sized_block p d r c unset w32 block4 (record { flags = fl; form = block4; uval = u }) s v
        bound h
  agree lay (suc fuel) data2 st fl u s v bound h =
      fixed p d r c unset w16 2 data2 (record { flags = fl; form = data2; uval = u }) s refl v bound
        h
  agree lay (suc fuel) data4 st fl u s v bound h =
      fixed p d r c unset w32 4 data4 (record { flags = fl; form = data4; uval = u }) s refl v bound
        h
  agree lay (suc fuel) data8 st fl u s v bound h =
      fixed p d r c unset w64 8 data8 (record { flags = fl; form = data8; uval = u }) s refl v bound
        h
  agree lay (suc fuel) string st fl u s v bound h = record {
    result = refl;
    there = refl-IsSamePlace d r (read_sz d 3 s).1 (read_sz-IsOnward d r 3 s v).open_still;
  }
  agree lay (suc fuel) exprloc st fl u s v bound h =
      uleb_block p d r c unset exprloc (record { flags = fl; form = exprloc; uval = u }) s v bound h
  agree lay (suc fuel) block st fl u s v bound h =
      uleb_block p d r c unset block (record { flags = fl; form = block; uval = u }) s v bound h
  agree lay (suc fuel) block1 st fl u s v bound h =
      sized_block p d r c unset w8 block1 (record { flags = fl; form = block1; uval = u }) s v bound
        h
  agree lay (suc fuel) data1 st fl u s v bound h =
      fixed p d r c unset w8 1 data1 (record { flags = fl; form = data1; uval = u }) s refl v bound
        h
  agree lay (suc fuel) flag st fl u s v bound h =
      fixed p d r c unset w8 1 flag (record { flags = fl; form = flag; uval = u }) s refl v bound h
  agree lay (suc fuel) sdata st fl u s v bound h = record {
    result = refl;
    there =
        refl-IsSamePlace d r (read_sleb128 p d s).1 (read_sleb128-IsOnward p d r s v).open_still;
  }
  agree lay (suc fuel) strp st fl u s v bound h =
      fixed p d r c unset w32 4 strp (record { flags = fl; form = strp; uval = u }) s refl v bound h
  agree lay (suc fuel) udata st fl u s v bound h = record {
    result = refl;
    there =
        refl-IsSamePlace d r (read_uleb128 p d s).1 (read_uleb128-IsOnward p d r s v).open_still;
  }
  agree lay (suc fuel) ref_addr st fl u s v bound h =
      fixed p d r c unset (reference_width p d c) _ ref_addr
        (record { flags = fl; form = ref_addr; uval = u }) s (reference-bytes p d r c unset lay) v
        bound h
  agree lay (suc fuel) ref1 st fl u s v bound h =
      fixed p d r c unset w8 1 ref1 (record { flags = fl; form = ref1; uval = u }) s refl v bound h
  agree lay (suc fuel) ref2 st fl u s v bound h =
      fixed p d r c unset w16 2 ref2 (record { flags = fl; form = ref2; uval = u }) s refl v bound h
  agree lay (suc fuel) ref4 st fl u s v bound h =
      fixed p d r c unset w32 4 ref4 (record { flags = fl; form = ref4; uval = u }) s refl v bound h
  agree lay (suc fuel) ref8 st fl u s v bound h =
      fixed p d r c unset w64 8 ref8 (record { flags = fl; form = ref8; uval = u }) s refl v bound h
  agree lay (suc fuel) ref_udata st fl u s v bound h = record {
    result = refl;
    there =
        refl-IsSamePlace d r (read_uleb128 p d s).1 (read_uleb128-IsOnward p d r s v).open_still;
  }
  agree lay (suc fuel) indirect st fl u s v bound h =
      let one = read_uleb128-IsOnward p d r s v in
      let f : ℕ = (read_uleb128 p d s).0.1 in
      let value : FormValue = record { form = indirect; storage = st } in
      agree lay fuel (form_of f) (install (type_of (form_of f)) (uninstall p value)).0 again u
        (read_uleb128 p d s).1 one.open_still (omega (arith, size-onward d r v one))
        (omega (arith, h, size-onward d r v one))
  agree lay (suc fuel) sec_offset st fl u s v bound h =
      fixed p d r c unset w32 4 sec_offset (record { flags = fl; form = sec_offset; uval = u }) s
        refl v bound h
  agree lay (suc fuel) flag_present st fl u s v bound h = record {
    result = refl;
    there = refl-IsSamePlace d r s v;
  }
  agree lay (suc fuel) ref_sig8 st fl u s v bound h =
      fixed p d r c unset w64 8 ref_sig8 (record { flags = fl; form = ref_sig8; uval = u }) s refl v
        bound h
  agree lay (suc fuel) invalid st fl u s v bound h = record {
    result = refl;
    there = refl-IsSamePlace d r s v;
  }
  agree lay (suc fuel) (other n) st fl u s v bound h = record {
    result = refl;
    there = refl-IsSamePlace d r s v;
  }

  -- For addresses of four or eight bytes and a format of 32 or 64 bits, on a readable stream below 2^64
  -- bytes: where `parse` of a value that was made for a form leaves a byte of the stream, `Skip` of the
  -- form returns what `parse` returns, and leaves the stream at the same position with the same content
  -- and byte order.
  pub skip-parse :
      IsLayout c
      → (form : Form) (s : Stream S) → IsOpen d r s
      → size d s < 2 ^ 64
      → position d (parse p d c (of_form form) s).1 < size d s
      → Agrees p d r c unset (skip p d c unset form s) (parse p d c (of_form form) s)
  unfolding skip parse of_form
  skip-parse lay form s v bound h =
      agree lay (size d s + 2) form (install (type_of form) (word 0)).0 plain 0 s v bound h
