-- ===== src/Macho/Symbols/Reading.antt =====
-- Tables of symbols that stand in a file, and what reading them gives.
use mach_olib.Common.{
  ℕ, suc, ◌+◌, ◌*◌, ◌%◌, ◌^◌, ◌<◌, ◌≡◌, refl, sym, ap, ◌∙◌, arith, min, Bool, true, false, List, [],
  ◌∷◌, ◌++◌, length, take, drop, some, All, take-append, length-append,
}
use mathlib.Core.List.{append_assoc}
use mach_olib.Base.{success}
use mach_olib.Io.Platform.{Platform}
use mach_olib.Io.Memory.{of_stream, memory_device}
use mach_olib.Io.Memory.Laws.{memory_reader}
use mach_olib.Io.Memory.Writing.{of_stream-read, of_stream-IsValid}
use mach_olib.Io.Stream.{Device, Stream, Encoding, Width, w8, w16, w32, bytes_of, seek}
use mach_olib.Io.Stream.Laws.{IsReader, rest, IsOpen, seek-rest}
use mach_olib.Io.Stream.Images.{image, get_next, image-Encodes}
use mach_olib.Macho.Header.Words.{Behind}
use mach_olib.Macho.Symbols.{Symbol}
use mach_olib.Macho.Symbols.Loading.{
  Nlist, symbol_of, value_width, size_of_struct, read_nlist, read_nlists, preload,
}

-- Every field fits its type.
pub record IsNlist (is_x64 : Bool) (e : Nlist) : Type 0 where
  pub idx_of_str : e.idx_of_str < 2 ^ 32
  pub flags : e.flags < 2 ^ 8
  pub section : e.section < 2 ^ 8
  pub desc : e.desc < 2 ^ 16
  pub value : e.value < 2 ^ (bytes_of (value_width is_x64) * 8)

abbrev pub entry_image : Encoding → Bool → Nlist → List ℕ → List ℕ
entry_image o is_x64 e back =
    image o w32 e.idx_of_str
    ++ (image o w8 e.flags
        ++ (image o w8 e.section
            ++ (image o w16 e.desc ++ (image o (value_width is_x64) e.value ++ back))))

unfoldable pub entries_image : Encoding → Bool → List Nlist → List ℕ → List ℕ
entries_image o is_x64 [] back = back
entries_image o is_x64 (e ∷ es) back = entry_image o is_x64 e (entries_image o is_x64 es back)

image-length :
    (o : Encoding) (w : Width) (v : ℕ) (back : List ℕ)
    → v < 2 ^ (bytes_of w * 8)
    → length (image o w v ++ back) ≡ bytes_of w + length back
image-length o w v back small =
    omega (arith, length-append (image o w v) back, (image-Encodes o w v small).count)

entry_image-length :
    (o : Encoding) (is_x64 : Bool) (e : Nlist) (back : List ℕ)
    → IsNlist is_x64 e
    → length (entry_image o is_x64 e back) ≡ size_of_struct is_x64 + length back
entry_image-length o is_x64 e back small =
    image-length o w32 e.idx_of_str _ small.idx_of_str
    ∙ ap (λ n. 4 + n)
        (image-length o w8 e.flags _ small.flags
          ∙ ap (λ n. 1 + n)
              (image-length o w8 e.section _ small.section
                ∙ ap (λ n. 1 + n)
                    (image-length o w16 e.desc _ small.desc
                      ∙ ap (λ n. 2 + n)
                          (image-length o (value_width is_x64) e.value back small.value))))
    ∙ sizes is_x64 (length back)
  where
    sizes :
        (is_x64 : Bool) (n : ℕ)
        → 4 + (1 + (1 + (2 + (bytes_of (value_width is_x64) + n)))) ≡ size_of_struct is_x64 + n
    sizes true n = omega arith
    sizes false n = omega arith

entries_image-length :
    (o : Encoding) (is_x64 : Bool) (es : List Nlist)
    → All (IsNlist is_x64) es
    → length (entries_image o is_x64 es []) ≡ length es * size_of_struct is_x64
unfolding entries_image
entries_image-length o is_x64 [] small = none_long is_x64
  where
    none_long : (is_x64 : Bool) → 0 ≡ 0 * size_of_struct is_x64
    none_long true = refl
    none_long false = refl
entries_image-length o is_x64 (e ∷ es) small =
    entry_image-length o is_x64 e _ small.0
    ∙ ap (λ n. size_of_struct is_x64 + n) (entries_image-length o is_x64 es small.1)
    ∙ one_more is_x64 (length es)
  where
    one_more :
        (is_x64 : Bool) (n : ℕ)
        → size_of_struct is_x64 + n * size_of_struct is_x64 ≡ suc n * size_of_struct is_x64
    one_more true n = omega arith
    one_more false n = omega arith

entries_image-append :
    (o : Encoding) (is_x64 : Bool) (es : List Nlist) (back : List ℕ)
    → entries_image o is_x64 es back ≡ entries_image o is_x64 es [] ++ back
unfolding entries_image
entries_image-append o is_x64 [] back = refl
entries_image-append o is_x64 (e ∷ es) back =
    rw (entries_image-append o is_x64 es back) (simp append_assoc refl)

unfoldable pub symbols_of : List Nlist → List Symbol
symbols_of [] = []
symbols_of (e ∷ es) = symbol_of e ∷ symbols_of es

module _ {S : Type 0} (d : Device S) (r : IsReader d) where
  read_nlist-image :
      (is_x64 : Bool) (e old : Nlist) (o : Encoding) (s : Stream S) (back : List ℕ)
      → IsNlist is_x64 e
      → s.encoding ≡ o
      → IsOpen d r s
      → rest d r s ≡ entry_image o is_x64 e back
      → Behind d r e back o (read_nlist d is_x64 old s)
  unfolding read_nlist
  read_nlist-image is_x64 e old o s back small order open_still standing =
      let w = value_width is_x64 in
      let g1 =
        get_next d r w32 e.idx_of_str old.idx_of_str o s _ small.idx_of_str order open_still
          standing in
      let g2 =
        get_next d r w8 e.flags old.flags o _ _ small.flags g1.order g1.open_still g1.behind in
      let g3 =
        get_next d r w8 e.section old.section o _ _ small.section g2.order g2.open_still
          g2.behind in
      let g4 = get_next d r w16 e.desc old.desc o _ _ small.desc g3.order g3.open_still g3.behind in
      let g5 =
        get_next d r w e.value old.value o _ back small.value g4.order g4.open_still g4.behind in
      record {
        value = rw (g1.value, g2.value, g3.value, g4.value, g5.value) refl;
        behind = g5.behind;
        order = g5.order;
        open_still = g5.open_still;
      }

  pub read_nlists-image :
      (is_x64 : Bool) (undefined : ℕ → ℕ) (es : List Nlist) (old : Nlist) (o : Encoding)
      (s : Stream S) (back : List ℕ)
      → All (IsNlist is_x64) es
      → s.encoding ≡ o
      → IsOpen d r s
      → rest d r s ≡ entries_image o is_x64 es back
      → Behind d r (symbols_of es) back o (read_nlists d is_x64 undefined (length es) old s)
  unfolding read_nlists entries_image symbols_of
  read_nlists-image is_x64 undefined [] old o s back small order open_still standing = record {
    value = refl;
    behind = standing;
    order = order;
    open_still = open_still;
  }
  read_nlists-image is_x64 undefined (e ∷ es) old o s back small order open_still standing =
      let first =
        read_nlist-image is_x64 e (record old { value = undefined (length es) }) o s _ small.0 order
          open_still standing in
      let more =
        read_nlists-image is_x64 undefined es e o
          (read_nlist d is_x64 (record old { value = undefined (length es) }) s).1 back small.1
          first.order first.open_still first.behind in
      record {
        value = rw (first.value, more.value) refl;
        behind = rw first.value more.behind;
        order = rw first.value more.order;
        open_still = rw first.value more.open_still;
      }

fits :
    (is_x64 : Bool) (n : ℕ)
    → n < 2 ^ 28
    → n * size_of_struct is_x64 % 2 ^ 32 ≡ n * size_of_struct is_x64
fits true n few = omega arith
fits false n few = omega arith

below : (is_x64 : Bool) (n : ℕ) → n < 2 ^ 28 → n * size_of_struct is_x64 < 2 ^ 64
below true n few = omega arith
below false n few = omega arith

-- The entries, read from the copy that `preload` makes of them in memory.
of_stream-image :
    {S : Type 0} (p : Platform) (d : Device S) (r : IsReader d) (is_x64 : Bool) (undefined : ℕ → ℕ)
    (es : List Nlist) (old : Nlist) (o : Encoding) (s : Stream S) (block : List ℕ)
    → length es < 2 ^ 28
    → All (IsNlist is_x64) es
    → p.malloc (length es * size_of_struct is_x64) ≡ some block
    → s.encoding ≡ o
    → IsOpen d r s
    → take (length es * size_of_struct is_x64) (rest d r s) ≡ entries_image o is_x64 es []
    → (read_nlists memory_device is_x64 undefined
        (length es)
        old
        (of_stream p d (length es * size_of_struct is_x64) s).0).0
      ≡ symbols_of es
unfolding memory_reader memory_device
of_stream-image p d r is_x64 undefined es old o s block few small given encoded open_at there =
    let n : ℕ = length es * size_of_struct is_x64 in
    let (_, start, order, holds, _) = of_stream-read p d r n s block given open_at in
    let valid = of_stream-IsValid p d r n s block given (below is_x64 (length es) few) open_at in
    let behind : List ℕ = drop (min n (length (rest d r s))) block in
    let m = (of_stream p d n s).0 in
    let standing : rest memory_device memory_reader m ≡ entries_image o is_x64 es behind =
      ap (λ k. drop k m.device.buffer) start
      ∙ holds
      ∙ ap (λ l. l ++ behind) there
      ∙ sym (entries_image-append o is_x64 es behind) in
    let all =
      read_nlists-image memory_device memory_reader is_x64 undefined es old o m behind small
        (order ∙ encoded) valid standing in
    all.value

at_offset :
    {S : Type 0} (d : Device S) (r : IsReader d) (offset : ℕ) (s : Stream S)
    → IsOpen d r s
    → ((seek d offset s).1.encoding ≡ s.encoding) × IsOpen d r (seek d offset s).1
unfolding seek
at_offset d r offset s v = (refl, r.seek-IsValid offset s.device v)

-- Where the entries of a table, whose fields fit their types, stand at the table's offset in a readable
-- file and there is memory for them, `preload` succeeds and adds their symbols, and no others, to
-- those that the table has, and sorts all of them; for fewer than 2 ^ 28 entries.
pub preload-image :
    {S : Type 0} (p : Platform) (d : Device S) (r : IsReader d) (sort : List Symbol → List Symbol)
    (undefined : ℕ → ℕ) (old : Nlist) (is_x64 : Bool) (offset : ℕ) (es : List Nlist) (s : Stream S)
    (back block : List ℕ) (symbols : List Symbol)
    → length es < 2 ^ 28
    → All (IsNlist is_x64) es
    → p.malloc (length es * size_of_struct is_x64) ≡ some block
    → IsOpen d r s
    → offset < length (r.contents s.device)
    → drop offset (r.contents s.device) ≡ entries_image s.encoding is_x64 es back
    → preload p d sort undefined old
        (record { is_x64 = is_x64; offset = offset; count = length es })
        (some s)
        symbols
      ≡ (success, sort (symbols ++ symbols_of es))
unfolding preload
preload-image {S = S} p d r sort undefined old is_x64 offset es s back block symbols few small given
      v inside standing =
    let n : ℕ = length es * size_of_struct is_x64 in
    let e : Encoding = s.encoding in
    let at_table : Stream S = (seek d offset s).1 in
    let (order, open_at) = at_offset d r offset s v in
    let left : rest d r at_table ≡ entries_image e is_x64 es [] ++ back =
      seek-rest d r offset s v inside ∙ standing ∙ entries_image-append e is_x64 es back in
    let there : take n (rest d r at_table) ≡ entries_image e is_x64 es [] =
      ap (take n) left
      ∙ take-append (entries_image e is_x64 es []) back n
          (sym (entries_image-length e is_x64 es small)) in
    let more =
      of_stream-image p d r is_x64 undefined es old e at_table block few small given order open_at
        there in
    rw (fits is_x64 (length es) few, more) refl
