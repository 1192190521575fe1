-- ===== src/Tests/Symbols.antt =====
-- Runs of the reading of a symbol table.
use mach_olib.Common.{ℕ, ◌^◌, ◌<◌, ◌≡◌, refl, arith, false, some, List, [], ◌∷◌, replicate, All}
use mach_olib.Tests.{memory_of-IsValid, stream_of, zeroed}
use mach_olib.Base.{success}
use mach_olib.Io.Codec.{le_encode}
use mach_olib.Io.Stream.{le_image, little_endian}
use mach_olib.Io.Stream.Laws.{IsOpen}
use mach_olib.Io.Memory.{memory_device}
use mach_olib.Io.Memory.Laws.{memory_reader}
use mach_olib.Macho.Symbols.{Symbol, insert}
use mach_olib.Macho.Symbols.Loading.{Nlist, preload}
use mach_olib.Macho.Symbols.Reading.{IsNlist, entries_image, symbols_of, preload-image}

abbrev entry_at : ℕ → Nlist
entry_at a = record { idx_of_str = 1; flags = 0xE; section = 1; desc = 0; value = a }

abbrev two_entries : List Nlist
two_entries = entry_at 0x1040 ∷ entry_at 0x1000 ∷ []

two_entries-IsNlist : All (IsNlist false) two_entries
two_entries-IsNlist = (small (omega arith), (small (omega arith), tt))
  where
    small : {a : ℕ} → a < 2 ^ 32 → IsNlist false (entry_at a)
    small h = record {
      idx_of_str = omega arith;
      flags = omega arith;
      section = omega arith;
      desc = omega arith;
      value = h;
    }

-- The table stands at offset 2, with a byte behind it.
unfoldable symbols_file : List ℕ
unfolding entries_image
symbols_file = 8 ∷ 8 ∷ entries_image little_endian false two_entries (9 ∷ [])

symbols_file-IsOpen : IsOpen memory_device memory_reader (stream_of symbols_file)
unfolding memory_reader symbols_file le_image le_encode entries_image
symbols_file-IsOpen = memory_of-IsValid symbols_file (omega arith)

unfoldable insertion_sort : List Symbol → List Symbol
insertion_sort [] = []
insertion_sort (s ∷ symbols) = insert s (insertion_sort symbols)

preload-image_example :
    preload zeroed memory_device insertion_sort
      (λ n. 0)
      (entry_at 0)
      (record { is_x64 = false; offset = 2; count = 2 })
      (some (stream_of symbols_file))
      []
    ≡ (success, insertion_sort (symbols_of two_entries))
unfolding memory_reader symbols_file entries_image le_image le_encode
preload-image_example =
    preload-image zeroed memory_device memory_reader insertion_sort (λ n. 0) (entry_at 0) false 2
      two_entries (stream_of symbols_file) (9 ∷ []) (replicate 24 0) [] (omega arith)
      two_entries-IsNlist refl symbols_file-IsOpen (omega arith) refl
