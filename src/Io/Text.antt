-- ===== src/Io/Text.antt =====
-- `read_sz` and `write_sz` of io/stream_base.cpp: strings that a zero byte ends.
pub mod Laws
pub mod Onward
use mach_olib.Common.{ℕ, zero, suc, ◌+◌, ◌==◌, ltb, if◌then◌else◌, not, ◌&&◌, List, [], ◌∷◌, ◌++◌}
use mach_olib.Io.Stream.{Device, Stream, Action, w8, be_read, write}

module _ {S : Type 0} (d : Device S) (max_size : ℕ) where
  -- The bytes put into `dst`, one in each round; their number is `i`, which the function returns.
  read_sz_loop : ℕ → ℕ → List ℕ → Action S (List ℕ)
  read_sz_loop zero i dst s = (dst, s)
  read_sz_loop (suc fuel) i dst s =
      let ((n, cur), s') = be_read d w8 0 s in
      let dst' = dst ++ (cur ∷ []) in
      let again = read_sz_loop fuel (i + 1) dst' s' in
      if n == 0
      then (dst, s')
      else if ltb (i + 1) max_size && not (cur == 0)
      then again
      else (dst', s')

  -- The body runs once at least, and at most once for each byte of `max_size`.
  unfoldable pub read_sz : Action S (List ℕ)
  unfolding read_sz_loop
  read_sz s = read_sz_loop (suc max_size) 0 [] s

-- `src` is the string without the zero that ends it, which is written too.
unfoldable pub write_sz : {S : Type 0} → Device S → List ℕ → Action S ℕ
write_sz d src s = write d (src ++ (0 ∷ [])) s
