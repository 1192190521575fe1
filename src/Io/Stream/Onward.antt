-- ===== src/Io/Stream/Onward.antt =====
-- What every read of `stream_base` does to a readable stream, whatever it reads: the content and the
-- byte order stay, the stream stays readable, and the position does not go back.
use mach_olib.Common.{ℕ, ◌≤◌, ◌≡◌, refl, sym, ap, ◌∙◌, arith, Bool-cases, inl, inr, List, length}
use mach_olib.Io.Stream.{
  Device, Stream, Width, bytes_of, size, position, read, t_read, be_read, get, is_big_endian,
}
use mach_olib.Io.Stream.Laws.{IsReader, IsOpen, read-IsOpen}

module _ {S : Type 0} (d : Device S) (r : IsReader d) where
  -- The bytes of a stream, those before the position too.
  abbrev pub contents_of : Stream S → List ℕ
  contents_of s = r.contents s.device

  pub record IsOnward (s t : Stream S) : Type 0 where
    pub same : contents_of t ≡ contents_of s
    pub order : t.encoding ≡ s.encoding
    pub forward : position d s ≤ position d t
    pub open_still : IsOpen d r t

  pub refl-IsOnward : (s : Stream S) → IsOpen d r s → IsOnward s s
  refl-IsOnward s v = record { same = refl; order = refl; forward = omega arith; open_still = v }

  pub trans-IsOnward : {s t u : Stream S} → IsOnward s t → IsOnward t u → IsOnward s u
  trans-IsOnward {s} {t} {u} a b = record {
    same = b.same ∙ a.same;
    order = b.order ∙ a.order;
    forward = omega (arith, a.forward, b.forward);
    open_still = b.open_still;
  }

  pub read-IsOnward : (n : ℕ) (s : Stream S) → IsOpen d r s → IsOnward s (read d n s).1
  unfolding read position
  read-IsOnward n s v = record {
    same = r.contents-read n s.device v;
    order = refl;
    forward = omega (arith, r.read_position n s.device v);
    open_still = read-IsOpen d r n s v;
  }

  -- A read of an integer moves the stream as a read of its bytes does.
  pub t_read-read :
      (w : Width) (val : ℕ) (s : Stream S) → (t_read d w val s).1 ≡ (read d (bytes_of w) s).1
  unfolding t_read
  t_read-read w val s = elim (Bool-cases (is_big_endian s)) [ inl e ↦ rw e | inr e ↦ rw e ]

  pub t_read-IsOnward :
      (w : Width) (val : ℕ) (s : Stream S) → IsOpen d r s → IsOnward s (t_read d w val s).1
  t_read-IsOnward w val s v = rw (t_read-read w val s) (read-IsOnward (bytes_of w) s v)

  pub get-IsOnward :
      (w : Width) (val : ℕ) (s : Stream S) → IsOpen d r s → IsOnward s (get d w val s).1
  unfolding get
  get-IsOnward w val s v = t_read-IsOnward w val s v

  pub be_read-IsOnward :
      (w : Width) (val : ℕ) (s : Stream S) → IsOpen d r s → IsOnward s (be_read d w val s).1
  unfolding be_read
  be_read-IsOnward w val s v = read-IsOnward (bytes_of w) s v

  pub size-onward : {s t : Stream S} → IsOpen d r s → IsOnward s t → size d t ≡ size d s
  unfolding size
  size-onward {s} {t} v o =
      r.size-contents t.device o.open_still ∙ ap length o.same ∙ sym (r.size-contents s.device v)
