-- ===== src/Macho/Symbols/Loading.antt =====
-- macho/CSymbolTable.cpp: how the table is read from the file. The two branches for 32 and 64 bits
-- differ in the type of an entry's value only.
use mach_olib.Common.{
  ℕ, zero, suc, ◌*◌, ◌%◌, ◌^◌, if◌then◌else◌, Bool, Option, none, some, List, [], ◌∷◌, ◌++◌,
}
use mach_olib.Base.{ResultCode, success, fail}
use mach_olib.Io.Platform.{Platform}
use mach_olib.Io.Memory.{Memory, of_stream, memory_device}
use mach_olib.Io.Stream.{Device, Stream, Action, ◌>>=◌, pure, Width, w8, w16, w32, w64, get, seek}
use mach_olib.Macho.Symbols.{Symbol}

-- The local variables of the loop.
pub record Nlist : Type 0 where
  pub idx_of_str : ℕ
  pub flags : ℕ
  pub section : ℕ
  pub desc : ℕ
  pub value : ℕ

abbrev pub symbol_of : Nlist → Symbol
symbol_of e = record {
  address = e.value;
  str_idx = e.idx_of_str;
  type = e.flags;
  section_idx = e.section;
}

abbrev pub value_width : Bool → Width
value_width is_x64 = if is_x64 then w64 else w32

-- `kSIZE_OF_STRUCT`
abbrev pub size_of_struct : Bool → ℕ
size_of_struct is_x64 = if is_x64 then 16 else 12

module _ {S : Type 0} (d : Device S) where
  -- One round of the loop, from the variables as they are before it.
  unfoldable pub read_nlist : Bool → Nlist → Action S Nlist
  read_nlist is_x64 old = do
    idx_of_str ← get d w32 old.idx_of_str
    flags ← get d w8 old.flags
    section ← get d w8 old.section
    desc ← get d w16 old.desc
    value ← get d (value_width is_x64) old.value
    pure (record {
      idx_of_str = idx_of_str;
      flags = flags;
      section = section;
      desc = desc;
      value = value;
    })

  -- The loop. `value` is a new variable in each round, which begins as `undefined` says; the other
  -- variables keep what they hold.
  unfoldable pub read_nlists : Bool → (ℕ → ℕ) → ℕ → Nlist → Action S (List Symbol)
  read_nlists is_x64 undefined zero old = pure []
  read_nlists is_x64 undefined (suc n) old = do
    entry ← read_nlist is_x64 (record old { value = undefined n })
    more ← read_nlists is_x64 undefined n entry
    pure (symbol_of entry ∷ more)

-- What a table is made with: `m_isx64`, `m_offset` and `m_count`.
pub record Source : Type 0 where
  pub is_x64 : Bool
  pub offset : ℕ
  pub count : ℕ

-- `opened` is what `m_source.open()` gives, `sort` is `std::sort`, and `old` and `undefined` are what
-- the local variables hold before.
module _ {S : Type 0} (p : Platform) (d : Device S) (sort : List Symbol → List Symbol) where
  unfoldable pub preload :
      (ℕ → ℕ) → Nlist → Source → Option (Stream S) → List Symbol → ResultCode × List Symbol
  unfolding read_nlists of_stream seek memory_device
  preload undefined old source opened symbols = elim opened [
    | none ↦ (fail, symbols)
    | some s ↦
        let (memory, _) =
          of_stream p d (source.count * size_of_struct source.is_x64 % 2 ^ 32)
            (seek d source.offset s).1 in
        (
          success,
          sort (
              symbols
              ++ (read_nlists memory_device source.is_x64 undefined source.count old memory).0),
        )
  ]

  -- What `getSymbolIdxFirstAtRange`, `at` and `size` do first: a table that is empty is read.
  unfoldable pub loaded : (ℕ → ℕ) → Nlist → Source → Option (Stream S) → List Symbol → List Symbol
  unfolding preload
  loaded undefined old source opened [] = (preload undefined old source opened []).1
  loaded undefined old source opened (symbol ∷ symbols) = symbol ∷ symbols

-- `CSymbolTable::load`: the entries as a stream. The code takes the size of an entry of 32 bits for a
-- file of 64 bits, and the other way round.
module _ {S : Type 0} (p : Platform) (d : Device S) where
  unfoldable pub load_table : Source → Option (Stream S) → Option (Stream Memory)
  unfolding of_stream seek
  load_table source opened = elim opened [
    | none ↦ none
    | some s ↦
        some
          (of_stream p d (source.count * (if source.is_x64 then 12 else 16) % 2 ^ 32)
            (seek d source.offset s).1).0
  ]
