-- ===== src/Macho/Uuid/RoundTrip.antt =====
-- The text of a UUID and its bytes determine each other, but for the case of the digits.
use mach_olib.Common.{
  ℕ, zero, suc, ◌+◌, ◌-◌, ◌*◌, ◌/◌, ◌%◌, ◌^◌, ◌<◌, ◌≡◌, refl, sym, ap, ◌∙◌, arith, ◌==◌, ==_iff,
  leb, if◌then◌else◌, Bool, true, not, ◌&&◌, ◌||◌, List, [], ◌∷◌, length, get_or, All, bit_and,
  bit_or, holds_below, holds_below_at, nibble, map,
}
use mach_olib.Macho.Uuid.{
  num_table, char2num, uuid_mem2str, str_bytes, uuid_byte_size, uuid_str2mem,
}

-- The hexadecimal digits, in either case, and `toupper` on them.
abbrev pub is_hex : ℕ → Bool
is_hex c = (leb 48 c && leb c 57) || ((leb 97 c && leb c 102) || (leb 65 c && leb c 70))

abbrev pub to_upper : ℕ → ℕ
to_upper c = if leb 97 c && leb c 122 then c - 32 else c

byte_table :
    holds_below
      (λ c.
        bit_or
          (char2num (get_or num_table (bit_and (c / 2 ^ 4) 0xf) 0) * 2 ^ 4)
          (char2num (get_or num_table (bit_and c 0xf) 0))
        == c)
      256
    ≡ true
unfolding holds_below char2num
byte_table = refl

str_bytes-uuid_mem2str :
    (bytes : List ℕ)
    → All (λ b. b < 256) bytes
    → str_bytes (length bytes) (uuid_mem2str bytes) ≡ bytes
unfolding str_bytes uuid_mem2str
str_bytes-uuid_mem2str [] h = refl
str_bytes-uuid_mem2str (c ∷ cs) h =
    ap (λ b. b ∷ str_bytes (length cs) (uuid_mem2str cs))
      ((==_iff _ _).0 (holds_below_at _ 256 byte_table c h.0))
    ∙ ap (λ l. c ∷ l) (str_bytes-uuid_mem2str cs h.1)

-- The 16 bytes of a UUID come back from its text.
pub uuid_str2mem-uuid_mem2str :
    (bytes : List ℕ)
    → length bytes ≡ uuid_byte_size
    → All (λ b. b < 256) bytes
    → uuid_str2mem (uuid_mem2str bytes) ≡ bytes
uuid_str2mem-uuid_mem2str bytes e h =
    ap (λ n. str_bytes n (uuid_mem2str bytes)) (sym e) ∙ str_bytes-uuid_mem2str bytes h

char_table :
    holds_below
      (λ c.
        not (is_hex c) || (get_or num_table (char2num c) 0 == to_upper c && leb (char2num c) 15))
      128
    ≡ true
unfolding holds_below char2num
char_table = refl

join_table : holds_below (λ x. bit_or (x / 16 * 16) (x % 16) == x) 256 ≡ true
unfolding holds_below
join_table = refl

-- A hexadecimal digit stands for a nibble, and the nibble for the digit in upper case.
digit_back :
    (c : ℕ) → is_hex c ≡ true → (char2num c < 16) × (get_or num_table (char2num c) 0 ≡ to_upper c)
digit_back c h =
    let t =
      holds_below_at
        (λ c.
          not (is_hex c) || (get_or num_table (char2num c) 0 == to_upper c && leb (char2num c) 15))
        128 char_table c (ground arith) in
    read_off (is_hex c) (get_or num_table (char2num c) 0) (to_upper c) (char2num c) h t
  where
    read_off :
        (b : Bool) (x y n : ℕ)
        → b ≡ true
        → (not b || (x == y && leb n 15)) ≡ true
        → (n < 16) × (x ≡ y)
    read_off b x y n h t = ground arith

joined : (m n : ℕ) → m < 16 → n < 16 → bit_or (m * 2 ^ 4) n ≡ m * 16 + n
joined m n h k =
    let x : ℕ = m * 16 + n in
    ap (λ a. bit_or (a * 16) n) (omega arith)
    ∙ ap (λ a. bit_or (x / 16 * 16) a) (omega arith)
    ∙ (==_iff _ _).0
        (holds_below_at (λ x. bit_or (x / 16 * 16) (x % 16) == x) 256 join_table x (omega arith))

uuid_mem2str-str_bytes :
    (n : ℕ) (str : List ℕ)
    → length str ≡ 2 * n
    → All (λ c. is_hex c ≡ true) str
    → uuid_mem2str (str_bytes n str) ≡ map to_upper str
unfolding uuid_mem2str str_bytes
uuid_mem2str-str_bytes zero [] e h = refl
uuid_mem2str-str_bytes zero (c ∷ cs) e h = absurd (omega arith)
uuid_mem2str-str_bytes (suc n) [] e h = absurd (omega arith)
uuid_mem2str-str_bytes (suc n) (c ∷ []) e h = absurd (omega arith)
uuid_mem2str-str_bytes (suc n) (c ∷ c' ∷ cs) e h =
    let hi = digit_back c h.0 in
    let lo = digit_back c' h.1.0 in
    let x : ℕ = bit_or (char2num c * 2 ^ 4) (char2num c') in
    let same : x ≡ char2num c * 16 + char2num c' = joined (char2num c) (char2num c') hi.0 lo.0 in
    let high : bit_and (x / 2 ^ 4) 0xf ≡ char2num c =
      nibble (x / 2 ^ 4) (omega arith) ∙ omega arith in
    let low : bit_and x 0xf ≡ char2num c' = nibble x (omega arith) ∙ omega arith in
    ap
      (λ a.
        get_or num_table a 0 ∷ get_or num_table (bit_and x 0xf) 0 ∷ uuid_mem2str (str_bytes n cs))
      high
    ∙ ap
        (λ a.
          get_or num_table (char2num c) 0 ∷ get_or num_table a 0 ∷ uuid_mem2str (str_bytes n cs))
        low
    ∙ ap (λ a. a ∷ get_or num_table (char2num c') 0 ∷ uuid_mem2str (str_bytes n cs)) hi.1
    ∙ ap (λ a. to_upper c ∷ a ∷ uuid_mem2str (str_bytes n cs)) lo.1
    ∙ ap (λ l. to_upper c ∷ to_upper c' ∷ l) (uuid_mem2str-str_bytes n cs (omega arith) h.1.1)

-- The text of the bytes that a text of 32 hexadecimal digits stands for is that text in upper case.
pub uuid_mem2str-uuid_str2mem :
    (str : List ℕ)
    → length str ≡ 2 * uuid_byte_size
    → All (λ c. is_hex c ≡ true) str
    → uuid_mem2str (uuid_str2mem str) ≡ map to_upper str
uuid_mem2str-uuid_str2mem str e h = uuid_mem2str-str_bytes uuid_byte_size str e h
