-- ===== src/Macho/Symbols.antt =====
-- macho/CSymbol.cpp and macho/CSymbolTable.cpp: a symbol, and the table of a Mach-O file sorted by
-- address. The demangled name that a symbol caches is left out.
pub mod Lookup
pub mod Loading
pub mod Reading
use mach_olib.Common.{
  ℕ, ◌-◌, ◌%◌, ◌^◌, ◌==◌, if◌then◌else◌, Bool, not, ◌&&◌, ◌||◌, List, [], ◌∷◌, ◌++◌, take, drop,
  length, bit_and, lower_bound, upper_bound,
}

pub record Symbol : Type 0 where
  pub address : ℕ
  pub str_idx : ℕ
  pub type : ℕ
  pub section_idx : ℕ

-- `CSymbol::isDefined`, `isSTAB`, `isEXT` and `isPEXT`
unfoldable pub is_defined : Symbol → Bool
is_defined s = bit_and s.type 0xE == 0xE && bit_and s.type 0xE0 == 0

unfoldable pub is_stab : Symbol → Bool
is_stab s = not (bit_and s.type 0xE0 == 0)

unfoldable pub is_ext : Symbol → Bool
is_ext s = not (bit_and s.type 0x01 == 0)

unfoldable pub is_pext : Symbol → Bool
is_pext s = not (bit_and s.type 0x10 == 0)

abbrev pub invalid_symbol_idx : ℕ
invalid_symbol_idx = 0xffffffff

-- `CSymbolTable::insert` into `m_symbols`
unfoldable pub insert : Symbol → List Symbol → List Symbol
insert symbol symbols =
    let it = lower_bound (λ s. s.address) symbol.address symbols in
    take it symbols ++ (symbol ∷ drop it symbols)

-- `CSymbolTable::getSymbolIdxFirstAtRange`, of a table that is loaded
unfoldable pub symbol_idx_first_at_range : ℕ → List Symbol → ℕ
symbol_idx_first_at_range address symbols =
    let it = upper_bound (λ s. s.address) address symbols in
    if not (it == length symbols) && not (it == 0) then (it - 1) % 2 ^ 32 else invalid_symbol_idx
