-- ===== src/Io/Stream.antt =====
-- io/stream_base.h and io/stream_base.cpp: a stream, and what it reads and writes by way of its
-- device. The pure virtual functions of `stream_base` are the operations of `Device`; the byte order
-- `m_be` stands beside the device, as in an object of a derived class.
pub mod Laws
pub mod Values
pub mod Bytes
pub mod Images
pub mod Onward
pub mod Moves
use mach_olib.Common.{
  ℕ, zero, suc, ◌+◌, ◌-◌, ◌%◌, ◌==◌, ltb, if◌then◌else◌, min, Bool, true, false, Option, none, some,
  List, [], ◌∷◌, ◌++◌, length, get_or,
}
use mach_olib.Io.Codec.{le_encode, be_encode, le_decode, be_decode}

pub data Encoding : Type 0 where
  unknown little_endian big_endian : Encoding

-- `read` gives the bytes that it puts into `dst`; their number is what the function returns.
pub record Device (S : Type 0) : Type 0 where
  pub size : S → ℕ
  pub seek : ℕ → S → ℕ × S
  pub position : S → ℕ
  pub read : ℕ → S → List ℕ × S
  pub write : List ℕ → S → ℕ × S

pub record Stream (S : Type 0) : Type 0 where
  pub encoding : Encoding
  pub device : S

-- The widths of the integers that the overloads of `t_read` and `t_write` take.
pub data Width : Type 0 where
  w8 w16 w32 w64 : Width

abbrev pub bytes_of : Width → ℕ
bytes_of w8 = 1
bytes_of w16 = 2
bytes_of w32 = 4
bytes_of w64 = 8

-- What a call does to a stream, and what it gives.
abbrev pub Action : Type 0 → Type 0 → Type 0
Action S A = Stream S → A × Stream S

infixl 5 ◌>>=◌ ◌>>◌
abbrev pub ◌>>=◌ : {S A B : Type 0} → Action S A → (A → Action S B) → Action S B
◌>>=◌ m f s = let (a, s') = m s in f a s'

abbrev pub ◌>>◌ : {S A B : Type 0} → Action S A → Action S B → Action S B
m >> k = m >>= λ _. k

abbrev pub pure : {S A : Type 0} → A → Action S A
pure a s = (a, s)

-- `val` keeps what it held where fewer bytes were there than it has; one byte is read in place.
unfoldable pub le_result : Width → ℕ → List ℕ → ℕ
le_result w8 val bytes = get_or bytes 0 val
le_result w val bytes = if length bytes == bytes_of w then le_decode (bytes_of w) bytes else val

unfoldable pub be_result : Width → ℕ → List ℕ → ℕ
be_result w8 val bytes = get_or bytes 0 val
be_result w val bytes = if length bytes == bytes_of w then be_decode (bytes_of w) bytes else val

unfoldable pub le_image : Width → ℕ → List ℕ
le_image w8 val = (val % 256) ∷ []
le_image w val = le_encode (bytes_of w) val

unfoldable pub be_image : Width → ℕ → List ℕ
be_image w8 val = (val % 256) ∷ []
be_image w val = be_encode (bytes_of w) val

-- `m_be == EENCODING_BIG_ENDIAN`
unfoldable pub is_big_endian : {S : Type 0} → Stream S → Bool
is_big_endian s = elim (s.encoding) [ big_endian ↦ true | _ ↦ false ]

unfoldable pub set_encoding : {S : Type 0} → Encoding → Stream S → Stream S
set_encoding e s = record s { encoding = e }

unfoldable pub enable_big_endian : {S : Type 0} → Bool → Stream S → Stream S
unfolding set_encoding
enable_big_endian be s = set_encoding (if be then big_endian else little_endian) s

module _ {S : Type 0} (d : Device S) where
  unfoldable pub size : Stream S → ℕ
  size s = d.size s.device

  unfoldable pub position : Stream S → ℕ
  position s = d.position s.device

  unfoldable pub seek : ℕ → Action S ℕ
  seek offset s = let (r, t) = d.seek offset s.device in (r, record s { device = t })

  unfoldable pub read : ℕ → Action S (List ℕ)
  read n s = let (bytes, t) = d.read n s.device in (bytes, record s { device = t })

  unfoldable pub write : List ℕ → Action S ℕ
  write src s = let (r, t) = d.write src s.device in (r, record s { device = t })

  -- The number of bytes read, and the variable afterwards.
  unfoldable pub le_read : Width → ℕ → Action S (ℕ × ℕ)
  unfolding le_result read
  le_read w val s =
      let (bytes, s') = read (bytes_of w) s in ((length bytes, le_result w val bytes), s')

  unfoldable pub be_read : Width → ℕ → Action S (ℕ × ℕ)
  unfolding be_result read
  be_read w val s =
      let (bytes, s') = read (bytes_of w) s in ((length bytes, be_result w val bytes), s')

  unfoldable pub t_read : Width → ℕ → Action S (ℕ × ℕ)
  unfolding be_read le_read is_big_endian
  t_read w val s = if is_big_endian s then be_read w val s else le_read w val s

  unfoldable pub le_write : Width → ℕ → Action S ℕ
  unfolding le_image write
  le_write w val s = write (le_image w val) s

  unfoldable pub be_write : Width → ℕ → Action S ℕ
  unfolding be_image write
  be_write w val s = write (be_image w val) s

  unfoldable pub t_write : Width → ℕ → Action S ℕ
  unfolding be_write le_write is_big_endian
  t_write w val s = if is_big_endian s then be_write w val s else le_write w val s

  -- The variable after `t_read`, for the callers that do not look at the number of bytes.
  unfoldable pub get : Width → ℕ → Action S ℕ
  unfolding t_read
  get w val s = let ((_, v), s') = t_read w val s in (v, s')
