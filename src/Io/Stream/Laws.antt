-- ===== src/Io/Stream/Laws.antt =====
-- What a readable device promises: a fixed content, a position in it, and reads that hand out what
-- stands there. The classes derived from `stream_base` fill this record; the readers of the program
-- rest on it alone.
use mach_olib.Common.{
  ℕ, ◌+◌, ◌≤◌, ◌<◌, ◌≡◌, sym, ap, ◌∙◌, arith, min, List, length, take, drop, drop-drop, drop-min,
  length-take, length-drop,
}
use mach_olib.Io.Stream.{Device, Stream, size, position, read, seek}

pub record IsReader {S : Type 0} (d : Device S) : Type 1 where
  pub IsValid : S → Type 0
  pub contents : S → List ℕ
  pub size-contents : (s : S) → IsValid s → d.size s ≡ length (contents s)
  pub position_bound : (s : S) → IsValid s → d.position s ≤ length (contents s)
  pub read_bytes :
      (n : ℕ) (s : S) → IsValid s → (d.read n s).0 ≡ take n (drop (d.position s) (contents s))
  pub read_position :
      (n : ℕ) (s : S) → IsValid s → d.position (d.read n s).1 ≡ d.position s + length (d.read n s).0
  pub contents-read : (n : ℕ) (s : S) → IsValid s → contents (d.read n s).1 ≡ contents s
  pub read-IsValid : (n : ℕ) (s : S) → IsValid s → IsValid (d.read n s).1
  pub seek_result : (o : ℕ) (s : S) → IsValid s → o < length (contents s) → (d.seek o s).0 ≡ o
  pub seek_position :
      (o : ℕ) (s : S) → IsValid s → o < length (contents s) → d.position (d.seek o s).1 ≡ o
  pub contents-seek : (o : ℕ) (s : S) → IsValid s → contents (d.seek o s).1 ≡ contents s
  pub seek-IsValid : (o : ℕ) (s : S) → IsValid s → IsValid (d.seek o s).1

module _ {S : Type 0} (d : Device S) (r : IsReader d) where
  -- The bytes that a stream has still to give.
  abbrev pub rest : Stream S → List ℕ
  rest s = drop (d.position s.device) (r.contents s.device)

  abbrev pub IsOpen : Stream S → Type 0
  IsOpen s = r.IsValid s.device

  -- A read hands out the next bytes, as many as there are, and leaves the others.
  pub read-rest :
      (n : ℕ) (s : Stream S)
      → IsOpen s
      → ((read d n s).0 ≡ take n (rest s)) × (rest (read d n s).1 ≡ drop n (rest s))
  unfolding read
  read-rest n s v =
      let pos : ℕ = d.position s.device in
      let all : List ℕ = r.contents s.device in
      let bytes : List ℕ = (d.read n s.device).0 in
      let t : S = (d.read n s.device).1 in
      let count : length bytes ≡ min n (length (rest s)) =
        ap length (r.read_bytes n s.device v) ∙ length-take n (rest s) in
      (
        r.read_bytes n s.device v,
        ap (λ p. drop p (r.contents t)) (r.read_position n s.device v)
            ∙ ap (drop (pos + length bytes)) (r.contents-read n s.device v)
            ∙ ap (λ k. drop (pos + k) all) count
            ∙ sym (drop-drop (min n (length (rest s))) pos all)
            ∙ drop-min n (rest s),
      )

  pub read-IsOpen : (n : ℕ) (s : Stream S) → IsOpen s → IsOpen (read d n s).1
  unfolding read
  read-IsOpen n s v = r.read-IsValid n s.device v

  -- What is left, and where the stream stands, make up its size.
  pub size-rest : (s : Stream S) → IsOpen s → size d s ≡ position d s + length (rest s)
  unfolding size position
  size-rest s v = omega (
    arith,
    r.size-contents s.device v,
    r.position_bound s.device v,
    length-drop (d.position s.device) (r.contents s.device),
  )

  -- A seek into the content makes the rest begin there.
  pub seek-rest :
      (o : ℕ) (s : Stream S)
      → IsOpen s
      → o < length (r.contents s.device)
      → rest (seek d o s).1 ≡ drop o (r.contents s.device)
  unfolding seek
  seek-rest o s v h =
      ap (λ p. drop p (r.contents (d.seek o s.device).1)) (r.seek_position o s.device v h)
      ∙ ap (drop o) (r.contents-seek o s.device v)
