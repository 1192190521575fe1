-- ===== src/Io/Dynamic/Reading.antt =====
-- A growing stream is readable.
use mach_olib.Common.{
  ℕ, ◌+◌, ◌-◌, ◌<◌, ◌≡◌, refl, sym, ap, ◌∙◌, arith, min, ◌==◌, ==_iff, ltb, Bool-cases, inl, inr,
  List, length, take, drop, drop-take, take-take-min, length-take, length-drop,
}
use mach_olib.Io.Platform.{Platform}
use mach_olib.Io.Memory.{sub64, seek}
use mach_olib.Io.Memory.Laws.{sub64-eq}
use mach_olib.Io.Stream.Laws.{IsReader}
use mach_olib.Io.Dynamic.{Dynamic, read_dynamic, dynamic_device}
use mach_olib.Io.Dynamic.Laws.{IsValid, contents, length-contents}

left :
    (s : Dynamic)
    → IsValid s
    → sub64 s.memory.size s.memory.position ≡ s.memory.size - s.memory.position
left s v = sub64-eq s.memory.size s.memory.position v.bound (omega arith)

clamped :
    (n : ℕ) (s : Dynamic)
    → IsValid s
    → take (min (sub64 s.memory.size s.memory.position) n) (drop s.memory.position s.memory.buffer)
      ≡ take n (drop s.memory.position (contents s))
clamped n s v =
    let from : List ℕ = drop s.memory.position s.memory.buffer in
    ap (λ k. take (min k n) from) (left s v)
    ∙ sym (take-take-min (s.memory.size - s.memory.position) n from)
    ∙ ap (take n) (sym (drop-take s.memory.position s.memory.size s.memory.buffer))

pub read_bytes :
    (n : ℕ) (s : Dynamic)
    → IsValid s
    → (read_dynamic n s).0 ≡ take n (drop s.memory.position (contents s))
unfolding read_dynamic
read_bytes n s v = elim (Bool-cases (n == 0)) [
  | inl e ↦ rw e (ap (λ k. take k (drop s.memory.position (contents s))) (sym ((==_iff n 0).0 e)))
  | inr e ↦ rw e (clamped n s v)
]

pub read_position :
    (n : ℕ) (s : Dynamic)
    → IsValid s
    → (read_dynamic n s).1.memory.position ≡ s.memory.position + length (read_dynamic n s).0
unfolding read_dynamic
read_position n s v = elim (Bool-cases (n == 0)) [
  | inl e ↦ rw e (omega arith)
  | inr e ↦ rw e (
      omega (
        arith,
        length-take (min (sub64 s.memory.size s.memory.position) n)
            (drop s.memory.position s.memory.buffer),
        length-drop s.memory.position s.memory.buffer,
        left s v,
      ))
]

pub contents-read : (n : ℕ) (s : Dynamic) → contents (read_dynamic n s).1 ≡ contents s
unfolding read_dynamic
contents-read n s = ground arith

pub read-IsValid : (n : ℕ) (s : Dynamic) → IsValid s → IsValid (read_dynamic n s).1
unfolding read_dynamic
read-IsValid n s v = ground arith

pub seek_within :
    (o : ℕ) (s : Dynamic)
    → o < s.memory.size
    → ((seek o s.memory).0 ≡ o) × ((seek o s.memory).1.position ≡ o)
unfolding seek
seek_within o s h = ground arith

pub seek_keeps :
    (o : ℕ) (s : Dynamic)
    → IsValid s
    → (contents (record s { memory = (seek o s.memory).1 }) ≡ contents s)
      × IsValid (record s { memory = (seek o s.memory).1 })
unfolding seek
seek_keeps o s v = elim (Bool-cases (ltb o s.memory.size)) [
  | inl e ↦
      rw e (refl, record { sized = v.sized; fits = v.fits; bound = ground arith; small = v.small })
  | inr e ↦ rw e (refl, v)
]

-- `stream_dmemory` keeps the promise of a readable stream: its content is what it holds up to its size.
unfoldable pub dynamic_reader : (p : Platform) → IsReader (dynamic_device p)
unfolding dynamic_device
dynamic_reader p = record {
  IsValid = IsValid;
  contents = contents;
  size-contents = λ s v. sym (length-contents s v);
  position_bound = λ s v. omega (arith, length-contents s v);
  read_bytes = read_bytes;
  read_position = read_position;
  contents-read = λ n s v. contents-read n s;
  read-IsValid = read-IsValid;
  seek_result = λ o s v h. (seek_within o s (omega (arith, length-contents s v))).0;
  seek_position = λ o s v h. (seek_within o s (omega (arith, length-contents s v))).1;
  contents-seek = λ o s v. (seek_keeps o s v).0;
  seek-IsValid = λ o s v. (seek_keeps o s v).1;
}
