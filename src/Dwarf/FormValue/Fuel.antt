-- ===== src/Dwarf/FormValue/Fuel.antt =====
-- The loops of dwarf/CDWARFFormValue.cpp end by their own tests: an indirect form takes a byte, and at
-- the end of the stream it reads form 0.
use mach_olib.Common.{ℕ, zero, suc, ◌+◌, ◌≤◌, ◌≡◌, refl, arith, List, [], ◌∷◌, length}
use mach_olib.Io.Platform.{Platform}
use mach_olib.Io.Stream.{Device, Stream}
use mach_olib.Io.Stream.Laws.{IsReader, rest, IsOpen, size-rest}
use mach_olib.Io.Stream.Onward.{size-onward}
use mach_olib.Io.Leb.{read_uleb128}
use mach_olib.Io.Leb.Onward.{read_uleb128-IsOnward, read_uleb128_moves, read_uleb128_end}
use mach_olib.Dwarf.Forms.{
  Form, invalid, addr, block2, block4, data2, data4, data8, string, block, block1, data1, flag,
  sdata, strp, udata, ref_addr, ref1, ref2, ref4, ref8, ref_udata, indirect, sec_offset, exprloc,
  flag_present, ref_sig8, other, form_of, type_of,
}
use mach_olib.Dwarf.FormValue.{
  Storage, FormValue, Layout, install, uninstall, parse_word, parse_uleb, parse_form, parse_loop,
}

module _ (p : Platform) {S : Type 0} (d : Device S) (r : IsReader d) (c : Layout) where
  -- More fuel does not change what the loop does with a value of this form.
  abbrev IsEnough : ℕ → Form → Storage → Stream S → Type 0
  IsEnough fuel form storage s =
      parse_loop p d c (suc fuel) (record { form = form; storage = storage }) s
      ≡ parse_loop p d c fuel (record { form = form; storage = storage }) s

  indirect-IsEnough :
      (fuel : ℕ) (storage : Storage) (s : Stream S)
      → IsOpen d r s
      → length (rest d r s) + 2 ≤ suc (suc fuel)
      → ((form : Form) (st : Storage) (t : Stream S)
          → IsOpen d r t
          → length (rest d r t) + 2 ≤ suc fuel
          → IsEnough (suc fuel) form st t)
      → IsEnough (suc (suc fuel)) indirect storage s
  unfolding parse_loop parse_form
  indirect-IsEnough fuel st s v h ih = by_bytes (rest d r s) refl
    where
      f : ℕ
      f = (read_uleb128 p d s).0.1

      value : FormValue
      value = record { form = indirect; storage = st }

      by_bytes : (bytes : List ℕ) → rest d r s ≡ bytes → IsEnough (suc (suc fuel)) indirect st s
      by_bytes [] e = rw (read_uleb128_end p d r s v e)
      by_bytes (b ∷ bytes) e =
          let one = read_uleb128-IsOnward p d r s v in
          ih (form_of f) (install (type_of (form_of f)) (uninstall p value)).0
            (read_uleb128 p d s).1 one.open_still
            (omega (
              arith,
              h,
              read_uleb128_moves p d r s b bytes v e,
              size-rest d r s v,
              size-rest d r (read_uleb128 p d s).1 one.open_still,
              size-onward d r v one,
            ))

  -- Fuel for two rounds more than there are bytes left is enough for the loop of `parse`, on any value
  -- and a readable stream that holds any bytes: one round more does not change what it does.
  pub parse_loop_ends :
      (fuel : ℕ) (form : Form) (storage : Storage) (s : Stream S)
      → IsOpen d r s
      → length (rest d r s) + 2 ≤ fuel
      → parse_loop p d c (suc fuel) (record { form = form; storage = storage }) s
        ≡ parse_loop p d c fuel (record { form = form; storage = storage }) s
  unfolding parse_loop parse_form parse_word parse_uleb
  parse_loop_ends zero form st s v h = absurd (omega arith)
  parse_loop_ends (suc fuel) addr st s v h = refl
  parse_loop_ends (suc fuel) block2 st s v h = refl
  parse_loop_ends (suc fuel) block4 st s v h = refl
  parse_loop_ends (suc fuel) data2 st s v h = refl
  parse_loop_ends (suc fuel) data4 st s v h = refl
  parse_loop_ends (suc fuel) data8 st s v h = refl
  parse_loop_ends (suc fuel) string st s v h = refl
  parse_loop_ends (suc fuel) exprloc st s v h = refl
  parse_loop_ends (suc fuel) block st s v h = refl
  parse_loop_ends (suc fuel) block1 st s v h = refl
  parse_loop_ends (suc fuel) data1 st s v h = refl
  parse_loop_ends (suc fuel) flag st s v h = refl
  parse_loop_ends (suc fuel) sdata st s v h = refl
  parse_loop_ends (suc fuel) strp st s v h = refl
  parse_loop_ends (suc fuel) udata st s v h = refl
  parse_loop_ends (suc fuel) ref_addr st s v h = refl
  parse_loop_ends (suc fuel) ref1 st s v h = refl
  parse_loop_ends (suc fuel) ref2 st s v h = refl
  parse_loop_ends (suc fuel) ref4 st s v h = refl
  parse_loop_ends (suc fuel) ref8 st s v h = refl
  parse_loop_ends (suc fuel) ref_udata st s v h = refl
  parse_loop_ends (suc fuel) sec_offset st s v h = refl
  parse_loop_ends (suc fuel) flag_present st s v h = refl
  parse_loop_ends (suc fuel) ref_sig8 st s v h = refl
  parse_loop_ends (suc fuel) invalid st s v h = refl
  parse_loop_ends (suc fuel) (other n) st s v h = refl
  parse_loop_ends (suc zero) indirect st s v h = absurd (omega arith)
  parse_loop_ends (suc (suc fuel)) indirect st s v h =
      indirect-IsEnough fuel st s v h (parse_loop_ends (suc fuel))
