-- ===== src/Io/Text/Onward.antt =====
-- `read_sz` on a readable stream that holds any bytes.
use mach_olib.Common.{
  ℕ, zero, suc, ◌+◌, ◌==◌, ltb, not, ◌&&◌, Bool-cases, inl, inr, List, [], ◌∷◌, ◌++◌,
}
use mach_olib.Io.Stream.{Device, Stream, w8, be_read}
use mach_olib.Io.Stream.Laws.{IsReader, IsOpen}
use mach_olib.Io.Stream.Onward.{IsOnward, trans-IsOnward, refl-IsOnward, be_read-IsOnward}
use mach_olib.Io.Text.{read_sz_loop, read_sz}

module _ {S : Type 0} (d : Device S) (r : IsReader d) (max_size : ℕ) where
  read_sz_loop-IsOnward :
      (fuel i : ℕ) (dst : List ℕ) (s : Stream S)
      → IsOpen d r s
      → IsOnward d r s (read_sz_loop d max_size fuel i dst s).1
  unfolding read_sz_loop
  read_sz_loop-IsOnward zero i dst s v = refl-IsOnward d r s v
  read_sz_loop-IsOnward (suc fuel) i dst s v =
      let one = be_read-IsOnward d r w8 0 s v in
      let cur : ℕ = (be_read d w8 0 s).0.1 in
      let n : ℕ = (be_read d w8 0 s).0.0 in
      let again = trans-IsOnward d r one (
        read_sz_loop-IsOnward fuel (i + 1) (dst ++ (cur ∷ [])) (be_read d w8 0 s).1
          one.open_still) in
      elim (Bool-cases (n == 0)) [
        | inl e ↦ rw e one
        | inr e ↦ elim (Bool-cases (ltb (i + 1) max_size && not (cur == 0))) [
          | inl e' ↦ rw (e, e') again
          | inr e' ↦ rw (e, e') one
        ]
      ]

  pub read_sz-IsOnward : (s : Stream S) → IsOpen d r s → IsOnward d r s (read_sz d max_size s).1
  unfolding read_sz
  read_sz-IsOnward s v = read_sz_loop-IsOnward (suc max_size) 0 [] s v
