-- ===== src/Macho/Commands/Walk.antt =====
-- The walk over the load commands ends, and sees as many commands as the header says.
use mach_olib.Common.{
  ℕ, zero, suc, ◌+◌, ◌%◌, ◌^◌, ◌<◌, ◌≡◌, refl, ◌∙◌, arith, leb, true, false, some, List, [], ◌∷◌,
  ◌++◌, length, length-append,
}
use mach_olib.Base.{success}
use mach_olib.Io.Stream.{Device, Stream}
use mach_olib.Macho.Commands.{Iterator, data_size, efo, begin, advance_command, walk, load_commands}

module _ {S : Type 0} (d : Device S) where
  -- An iterator with an open stream.
  abbrev at : ℕ → ℕ → ℕ → ℕ → ℕ → Stream S → Iterator S
  at i cmd cmd_size off e s = record {
    idx = i;
    cmd = cmd;
    cmd_size = cmd_size;
    cmd_off = off;
    end = e;
    stream = some s;
  }

  at_end : (e i : ℕ) → i + 0 ≡ e → leb e i ≡ true
  at_end e i h = ground arith

  not_at_end : (e i left : ℕ) → i + suc left ≡ e → leb e i ≡ false
  not_at_end e i left h = ground arith

  walk_all :
      (left extra i cmd cmd_size off e : ℕ) (s : Stream S) (commands : List (ℕ × ℕ))
      → i + left ≡ e
      → e < 2 ^ 32
      → (walk d (left + extra) (at i cmd cmd_size off e s) commands
          ≡ walk d left (at i cmd cmd_size off e s) commands)
        × (length (walk d left (at i cmd cmd_size off e s) commands) ≡ length commands + left)
  unfolding walk efo advance_command
  walk_all zero zero i cmd cmd_size off e s commands h k = (refl, omega arith)
  walk_all zero (suc extra) i cmd cmd_size off e s commands h k =
      let fuel : 0 + suc extra ≡ suc extra = omega arith in
      rw (fuel, at_end e i h) (refl, omega arith)
  walk_all (suc left) extra i cmd cmd_size off e s commands h k =
      let fuel : suc left + extra ≡ suc (left + extra) = omega arith in
      let seen : List (ℕ × ℕ) = commands ++ ((cmd, data_size (at i cmd cmd_size off e s)) ∷ []) in
      let rest = walk_all left extra ((i + 1) % 2 ^ 32) _ _ _ e _ seen (omega arith) k in
      rw (fuel, not_at_end e i left h)
        (
          rest.0,
          rest.1
              ∙ omega (
                arith,
                length-append commands ((cmd, data_size (at i cmd cmd_size off e s)) ∷ []),
              ),
        )

  -- On an open stream, and for a count that fits in 32 bits, the table of the load commands gets as many
  -- more entries as the header counts, and loading it succeeds; fuel for one round per command is enough, any
  -- more gives the same table.
  pub length-load_commands :
      (s : Stream S) (off cmd_count extra : ℕ) (held : List (ℕ × ℕ))
      → cmd_count < 2 ^ 32
      → ((load_commands d (some s) off cmd_count held).0 ≡ success)
        × (length (load_commands d (some s) off cmd_count held).1 ≡ length held + cmd_count)
        × (walk d (cmd_count + extra) (begin d (some s) off cmd_count) held
            ≡ (load_commands d (some s) off cmd_count held).1)
  unfolding load_commands begin
  length-load_commands s off cmd_count extra held small =
      let all = walk_all cmd_count extra 0 _ _ off cmd_count _ held (omega arith) small in
      (refl, all.1, all.0)
