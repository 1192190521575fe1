-- ===== src/Dwarf/FormValue/Skip/Fuel.antt =====
-- The loop of `Skip` of dwarf/CDWARFFormValue.cpp ends by its own test: an indirect form takes a byte, and at
-- the end of the stream it reads form 0.
use mach_olib.Common.{ℕ, zero, suc, ◌+◌, ◌≤◌, ◌≡◌, refl, arith, List, [], ◌∷◌, length}
use mach_olib.Io.Platform.{Platform}
use mach_olib.Io.Stream.{Device, Stream, Width}
use mach_olib.Io.Stream.Laws.{IsReader, rest, IsOpen, size-rest}
use mach_olib.Io.Stream.Onward.{size-onward}
use mach_olib.Io.Leb.{read_uleb128}
use mach_olib.Io.Leb.Onward.{read_uleb128-IsOnward, read_uleb128_moves, read_uleb128_end}
use mach_olib.Dwarf.Forms.{
  Form, invalid, addr, block2, block4, data2, data4, data8, string, block, block1, data1, flag,
  sdata, strp, udata, ref_addr, ref1, ref2, ref4, ref8, ref_udata, indirect, sec_offset, exprloc,
  flag_present, ref_sig8, other, form_of,
}
use mach_olib.Dwarf.FormValue.{Layout, Flags, again}
use mach_olib.Dwarf.FormValue.Skip.{
  Skipped, skip_bytes, skip_size, skip_uleb, skip_uleb_size, skip_form, skip_loop,
}

module _ (p : Platform) {S : Type 0} (d : Device S) (r : IsReader d) (c : Layout)
    (unset : Width → ℕ) where
  -- More fuel does not change what the loop does.
  abbrev IsEnough : ℕ → Skipped → Stream S → Type 0
  IsEnough fuel l s = skip_loop p d c unset (suc fuel) l s ≡ skip_loop p d c unset fuel l s

  indirect-IsEnough :
      (fuel : ℕ) (flags : Flags) (uval : ℕ) (s : Stream S)
      → IsOpen d r s
      → length (rest d r s) + 2 ≤ suc (suc fuel)
      → ((l : Skipped) (t : Stream S)
          → IsOpen d r t
          → length (rest d r t) + 2 ≤ suc fuel
          → IsEnough (suc fuel) l t)
      → IsEnough (suc (suc fuel)) (record { flags = flags; form = indirect; uval = uval }) s
  unfolding skip_loop skip_form
  indirect-IsEnough fuel fl u s v h ih = by_bytes (rest d r s) refl
    where
      f : ℕ
      f = (read_uleb128 p d s).0.1

      by_bytes :
          (bytes : List ℕ)
          → rest d r s ≡ bytes
          → IsEnough (suc (suc fuel)) (record { flags = fl; form = indirect; uval = u }) s
      by_bytes [] e = rw (read_uleb128_end p d r s v e)
      by_bytes (b ∷ bytes) e =
          let one = read_uleb128-IsOnward p d r s v in
          ih (record { flags = again; form = form_of f; uval = u }) (read_uleb128 p d s).1
            one.open_still
            (omega (
              arith,
              h,
              read_uleb128_moves p d r s b bytes v e,
              size-rest d r s v,
              size-rest d r (read_uleb128 p d s).1 one.open_still,
              size-onward d r v one,
            ))

  form-IsEnough :
      (fuel : ℕ) (form : Form) (flags : Flags) (uval : ℕ) (s : Stream S)
      → IsOpen d r s
      → length (rest d r s) + 2 ≤ fuel
      → IsEnough fuel (record { flags = flags; form = form; uval = uval }) s
  unfolding skip_loop skip_form skip_bytes skip_size skip_uleb skip_uleb_size
  form-IsEnough zero form fl u s v h = absurd (omega arith)
  form-IsEnough (suc fuel) addr fl u s v h = refl
  form-IsEnough (suc fuel) block2 fl u s v h = refl
  form-IsEnough (suc fuel) block4 fl u s v h = refl
  form-IsEnough (suc fuel) data2 fl u s v h = refl
  form-IsEnough (suc fuel) data4 fl u s v h = refl
  form-IsEnough (suc fuel) data8 fl u s v h = refl
  form-IsEnough (suc fuel) string fl u s v h = refl
  form-IsEnough (suc fuel) exprloc fl u s v h = refl
  form-IsEnough (suc fuel) block fl u s v h = refl
  form-IsEnough (suc fuel) block1 fl u s v h = refl
  form-IsEnough (suc fuel) data1 fl u s v h = refl
  form-IsEnough (suc fuel) flag fl u s v h = refl
  form-IsEnough (suc fuel) sdata fl u s v h = refl
  form-IsEnough (suc fuel) strp fl u s v h = refl
  form-IsEnough (suc fuel) udata fl u s v h = refl
  form-IsEnough (suc fuel) ref_addr fl u s v h = refl
  form-IsEnough (suc fuel) ref1 fl u s v h = refl
  form-IsEnough (suc fuel) ref2 fl u s v h = refl
  form-IsEnough (suc fuel) ref4 fl u s v h = refl
  form-IsEnough (suc fuel) ref8 fl u s v h = refl
  form-IsEnough (suc fuel) ref_udata fl u s v h = refl
  form-IsEnough (suc fuel) sec_offset fl u s v h = refl
  form-IsEnough (suc fuel) flag_present fl u s v h = refl
  form-IsEnough (suc fuel) ref_sig8 fl u s v h = refl
  form-IsEnough (suc fuel) invalid fl u s v h = refl
  form-IsEnough (suc fuel) (other n) fl u s v h = refl
  form-IsEnough (suc zero) indirect fl u s v h = absurd (omega arith)
  form-IsEnough (suc (suc fuel)) indirect fl u s v h =
      indirect-IsEnough fuel fl u s v h (λ l. form-IsEnough (suc fuel) l.form l.flags l.uval)

  -- Fuel for two rounds more than there are bytes left is enough for the loop of `Skip`, on any form
  -- and a readable stream that holds any bytes: one round more does not change what it does.
  pub skip_loop_ends :
      (fuel : ℕ) (l : Skipped) (s : Stream S)
      → IsOpen d r s
      → length (rest d r s) + 2 ≤ fuel
      → skip_loop p d c unset (suc fuel) l s ≡ skip_loop p d c unset fuel l s
  skip_loop_ends fuel l s v h = form-IsEnough fuel l.form l.flags l.uval s v h
