-- ===== src/Dwarf/FormValue/Skip.antt =====
-- `Skip` of dwarf/CDWARFFormValue.cpp: how a value is left out. `val` of the two-byte and four-byte
-- sizes has no value before the read; `unset` is what it happens to hold.
pub mod Fuel
use mach_olib.Common.{ℕ, zero, suc, ◌+◌, ◌/◌, leb, ltb, if◌then◌else◌, ◌&&◌, Bool, true, false}
use mach_olib.Io.Platform.{Platform}
use mach_olib.Io.Stream.{
  Device, Action, Width, w8, w16, w32, size, position, seek, get, pure, ◌>>=◌,
}
use mach_olib.Io.Substream.{add64}
use mach_olib.Io.Leb.{read_uleb128, read_sleb128}
use mach_olib.Io.Text.{read_sz}
use mach_olib.Dwarf.Forms.{
  Form, invalid, addr, block2, block4, data2, data4, data8, string, block, block1, data1, flag,
  sdata, strp, udata, ref_addr, ref1, ref2, ref4, ref8, ref_udata, indirect, sec_offset, exprloc,
  flag_present, ref_sig8, other, form_of,
}
use mach_olib.Dwarf.FormValue.{Flags, plain, sized, again, failed, Layout}

-- The locals of `Skip` behind a pass through the switch.
pub record Skipped : Type 0 where
  pub flags : Flags
  pub form : Form
  pub uval : ℕ

module _ (p : Platform) {S : Type 0} (d : Device S) (c : Layout) (unset : Width → ℕ) where
  -- `stream->seek(stream->position() + n)`
  unfoldable pub skip_bytes : ℕ → Skipped → Action S Skipped
  skip_bytes n l s =
      let (_, s') = seek d (add64 (position d s) n) s in (record l { flags = plain }, s')

  unfoldable pub skip_size : Width → Skipped → Action S Skipped
  skip_size w l = do val ← get d w (unset w); pure (record l { flags = sized; uval = val })

  unfoldable pub skip_uleb : Skipped → Action S Skipped
  skip_uleb l = do _ ← read_uleb128 p d; pure (record l { flags = plain })

  unfoldable pub skip_uleb_size : Skipped → Action S Skipped
  skip_uleb_size l = do (_, t) ← read_uleb128 p d; pure (record l { flags = sized; uval = t })

  -- The switch of `Skip`, on `form`.
  unfoldable pub skip_form : Form → Skipped → Action S Skipped
  unfolding skip_bytes skip_size skip_uleb skip_uleb_size form_of
  skip_form addr l = skip_bytes c.addr_size l
  skip_form block2 l = skip_size w16 l
  skip_form block4 l = skip_size w32 l
  skip_form data2 l = skip_bytes 2 l
  skip_form data4 l = skip_bytes 4 l
  skip_form data8 l = skip_bytes 8 l
  skip_form string l = do _ ← read_sz d 3; pure (record l { flags = plain })
  skip_form exprloc l = skip_uleb_size l
  skip_form block l = skip_uleb_size l
  skip_form block1 l = skip_size w8 l
  skip_form data1 l = skip_bytes 1 l
  skip_form flag l = skip_bytes 1 l
  skip_form sdata l = do _ ← read_sleb128 p d; pure (record l { flags = plain })
  skip_form strp l = skip_bytes 4 l
  skip_form udata l = skip_uleb l
  skip_form ref_addr l =
      skip_bytes (if ltb 2 c.dwarf_version then c.dwarf_format / 8 else c.addr_size) l
  skip_form ref1 l = skip_bytes 1 l
  skip_form ref2 l = skip_bytes 2 l
  skip_form ref4 l = skip_bytes 4 l
  skip_form ref8 l = skip_bytes 8 l
  skip_form ref_udata l = skip_uleb l
  skip_form indirect l = do
    (_, f) ← read_uleb128 p d
    pure (record l { flags = again; form = form_of f })
  skip_form sec_offset l = skip_bytes 4 l
  skip_form flag_present l = pure (record l { flags = plain })
  skip_form ref_sig8 l = skip_bytes 8 l
  skip_form invalid l = pure (record l { flags = failed })
  skip_form (other n) l = pure (record l { flags = failed })

  unfoldable pub skip_loop : ℕ → Skipped → Action S Skipped
  unfolding skip_form
  skip_loop zero l s = (record l { flags = failed }, s)
  skip_loop (suc fuel) l s =
      let (l', s') = skip_form l.form l s in
      let more = skip_loop fuel l' s' in
      if l'.flags.is_indirect && l'.flags.ret then more else (l', s')

  unfoldable pub skip_block : Skipped → Action S Bool
  skip_block l s =
      let to = add64 (position d s) l.uval in
      let (_, s') = seek d to s in
      if l.flags.is_block && l.flags.ret
      then (if leb to (size d s) then (true, s') else (false, s))
      else (l.flags.ret, s)

  unfoldable pub skip : Form → Action S Bool
  unfolding skip_loop skip_block
  skip form s =
      let start : Skipped = record { flags = plain; form = form; uval = 0 } in
      let (l, s') = skip_loop (size d s + 2) start s in skip_block l s'
