-- ===== src/Io/Dynamic/Values.antt =====
-- Integers written to a growing stream are read back.
use mach_olib.Common.{
  ℕ, ◌+◌, ◌*◌, ◌^◌, ◌≤◌, ◌<◌, ◌≡◌, refl, sym, subst, ap, ◌∙◌, arith, List, ◌++◌, length, take, drop,
  length-take, drop-append, length-append,
}
use mach_olib.Io.Platform.{Platform}
use mach_olib.Io.Stream.{
  Device, Stream, Encoding, unknown, little_endian, big_endian, Width, w8, w16, w32, w64, bytes_of,
  le_image, be_image, t_write, get,
}
use mach_olib.Io.Stream
use mach_olib.Io.Stream.Laws.{rest, seek-rest}
use mach_olib.Io.Stream.Images.{image, Encodes, image-Encodes, get-image}
use mach_olib.Io.Dynamic.{Dynamic, write_dynamic, dynamic_device}
use mach_olib.Io.Dynamic.Laws.{IsValid, HasRoom, contents, length-contents, overwrite}
use mach_olib.Io.Dynamic.File.{contents-write_dynamic}
use mach_olib.Io.Dynamic.Reading.{seek_keeps, dynamic_reader}

-- What stands at the place of a write, and behind it.
drop-overwrite :
    (old : List ℕ) (at : ℕ) (src : List ℕ)
    → at ≤ length old
    → drop at (overwrite old at src) ≡ src ++ drop (at + length src) old
drop-overwrite old at src h =
    drop-append (take at old) (src ++ drop (at + length src) old) at
      (omega (arith, length-take at old))

length-overwrite :
    (old : List ℕ) (at : ℕ) (src : List ℕ)
    → at ≤ length old
    → at + length src ≤ length (overwrite old at src)
length-overwrite old at src h = omega (
  arith,
  length-append (take at old) (src ++ drop (at + length src) old),
  length-append src (drop (at + length src) old),
  length-take at old,
)

width_pos : (w : Width) → 0 < bytes_of w
width_pos w8 = omega arith
width_pos w16 = omega arith
width_pos w32 = omega arith
width_pos w64 = omega arith

-- A read at a place where the image of a value stands gives the value.
read_again :
    (p : Platform) (w : Width) (v old at : ℕ) (e : Encoding) (s : Dynamic)
    → Encodes e w v
    → IsValid s
    → at < length (contents s)
    → (back : List ℕ) → drop at (contents s) ≡ image e w v ++ back
    → (get
        (dynamic_device p)
        w
        old
        (Stream.seek (dynamic_device p) at (record { encoding = e; device = s })).1).0
      ≡ v
unfolding dynamic_reader Stream.seek
read_again p w v old at e s i valid inside back there =
    let d : Device Dynamic = dynamic_device p in
    let start : Stream Dynamic = record { encoding = e; device = s } in
    let again : Stream Dynamic = (Stream.seek d at start).1 in
    let standing : rest d (dynamic_reader p) again ≡ image e w v ++ back =
      seek-rest d (dynamic_reader p) at start valid inside ∙ there in
    (get-image d (dynamic_reader p) w v old again i (seek_keeps at s valid).1 back standing).value

module _ (p : Platform) where
  t_write-image :
      (w : Width) (v : ℕ) (e : Encoding) (s : Dynamic)
      → (t_write (dynamic_device p) w v (record { encoding = e; device = s })).1
        ≡ record { encoding = e; device = (write_dynamic p (image e w v) s).1 }
  unfolding t_write dynamic_device
  t_write-image w v unknown s = refl
  t_write-image w v little_endian s = refl
  t_write-image w v big_endian s = refl

  -- An unsigned integer that fits its type comes back from a valid growing stream, if its bytes end
  -- below 2^63 and `realloc` gives a block where it is called: `t_write`, a seek to where it was written, and `t_read` of the same type give the integer,
  -- in either byte order and at any position, also over the end of the stream.
  pub get-t_write :
      (w : Width) (v old : ℕ) (s : Stream Dynamic)
      → v < 2 ^ (bytes_of w * 8)
      → IsValid s.device
      → s.device.memory.position + bytes_of w < 2 ^ 63
      → HasRoom p s.device (s.device.memory.position + bytes_of w)
      → let d = dynamic_device p in
        let (_, written) = t_write d w v s in
        let (_, again) = Stream.seek d s.device.memory.position written in (get d w old again).0 ≡ v
  get-t_write w v old s h valid small room =
      let d : Device Dynamic = dynamic_device p in
      let src : List ℕ = image s.encoding w v in
      let at : ℕ = s.device.memory.position in
      let dev : Dynamic = (write_dynamic p src s.device).1 in
      let there : Stream Dynamic = record { encoding = s.encoding; device = dev } in
      let i = image-Encodes s.encoding w v h in
      let wrote =
        contents-write_dynamic p src s.device valid (omega (arith, i.count))
          (subst (λ n. HasRoom p s.device (at + n)) (sym i.count) room) in
      let low : at ≤ length (contents s.device) = omega (arith, length-contents s.device valid) in
      ap (λ t. (get d w old (Stream.seek d at t).1).0) (t_write-image w v s.encoding s.device)
      ∙ read_again p w v old at s.encoding dev i wrote.1
          (rw wrote.2
            (omega (arith, length-overwrite (contents s.device) at src low, width_pos w, i.count)))
          (drop (at + length src) (contents s.device))
          (ap (drop at) wrote.2 ∙ drop-overwrite (contents s.device) at src low)
