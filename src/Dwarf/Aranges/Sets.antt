-- ===== src/Dwarf/Aranges/Sets.antt =====
-- dwarf/CDWARFArangeTable.cpp: how the sets of address ranges are read. `std::sort` is a parameter, and a
-- variable of the header that a short stream does not fill is 0, as its constructor leaves it.
pub mod Alignment
use mach_olib.Common.{
  ℕ, zero, suc, ◌+◌, ◌-◌, ◌*◌, ◌%◌, ◌^◌, ◌==◌, ltb, leb, if◌then◌else◌, Bool, true, false, not,
  ◌&&◌, ◌||◌, List, [], ◌∷◌, ◌++◌, length,
}
use mach_olib.Io.Stream.{
  Device, Stream, Width, w8, w16, w32, w64, bytes_of, size, position, seek, get, t_read,
}
use mach_olib.Dwarf.Aranges.{Range}

-- `CDWARFArangesHeader`
pub record ArangesHeader : Type 0 where
  pub length : ℕ
  pub version : ℕ
  pub cu_offset : ℕ
  pub addr_size : ℕ
  pub seg_size : ℕ

-- `while (first_tuple_offset < header_size) first_tuple_offset += tuple_size`
unfoldable pub first_tuple : ℕ → ℕ → ℕ → ℕ → ℕ
first_tuple zero header_size tuple_size offset = offset
first_tuple (suc fuel) header_size tuple_size offset =
    let further = first_tuple fuel header_size tuple_size (offset + tuple_size) in
    if ltb offset header_size then further else offset

module _ {S : Type 0} (d : Device S) where
  -- One of the two loops of `parse_set`, on addresses of one width: `address + length` wraps at it.
  -- The Boolean is `ret`.
  unfoldable pub tuples : Width → ℕ → ℕ → List Range → Stream S → Bool × List Range × Stream S
  tuples w zero cu_offset ranges s = (true, ranges, s)
  tuples w (suc fuel) cu_offset ranges s =
      let ((n, address), s') = t_read d w 0 s in
      let ((m, len), s'') = t_read d w 0 s' in
      let whole = n == bytes_of w && m == bytes_of w in
      let range : Range = record {
        begin = address;
        end = (address + len) % 2 ^ (bytes_of w * 8);
        cu_offset = cu_offset;
      } in
      let again = tuples w fuel cu_offset (ranges ++ (range ∷ [])) s'' in
      if not (ltb (position d s) (size d s))
      then (true, ranges, s)
      else if not (address == 0 && len == 0) && whole
      then again
      else (whole, ranges, s'')

  -- The fields of the header, in the order in which they are read, and the stream behind each.
  unfoldable pub read_aranges_header : Stream S → ArangesHeader × Stream S × Stream S
  read_aranges_header s =
      let (len, s1) = get d w32 0 s in
      let (version, s2) = get d w16 0 s1 in
      let (cu_offset, s3) = get d w32 0 s2 in
      let (addr_size, s4) = get d w8 0 s3 in
      let (seg_size, s5) = get d w8 0 s4 in
      (
        record {
          length = len;
          version = version;
          cu_offset = cu_offset;
          addr_size = addr_size;
          seg_size = seg_size;
        },
        s1,
        s5,
      )

  -- `CDWARFArangeTable::parse_set`
  unfoldable pub parse_set : List Range → Stream S → Bool × List Range × Stream S
  parse_set ranges s =
      let counter = length ranges in
      let start = position d s in
      let (header, behind_length, behind) = read_aranges_header s in
      let header_size = position d behind - start in
      let tuple_size = header.addr_size * 2 in
      let (_, at) = seek d (start + first_tuple header_size header_size tuple_size 0) behind in
      let (ret4, ranges4, s4) = tuples w32 (size d at) header.cu_offset ranges at in
      let (ret8, ranges8, s8) = tuples w64 (size d at) header.cu_offset ranges at in
      if leb (position d behind_length + header.length) (size d behind)
        && (header.addr_size == 4 || header.addr_size == 8)
      then (if header.addr_size == 4
          then (ret4 && ltb 0 (length ranges4 - counter), ranges4, s4)
          else (ret8 && ltb 0 (length ranges8 - counter), ranges8, s8))
      else (false, ranges, behind)

  -- The loop of `CDWARFArangeTable::parse`: the result is that of the last set.
  unfoldable pub sets : ℕ → Bool → List Range → Stream S → Bool × List Range × Stream S
  sets zero ret ranges s = (ret, ranges, s)
  sets (suc fuel) ret ranges s =
      let (good, ranges', s') = parse_set ranges s in
      let again = sets fuel true ranges' s' in
      if not (ltb (position d s) (size d s))
      then (ret, ranges, s)
      else if good
      then again
      else (false, ranges', s')

  -- `CDWARFArangeTable::parse`
  unfoldable pub parse_aranges : (List Range → List Range) → Stream S → Bool × List Range × Stream S
  parse_aranges sort s =
      let (ret, ranges, s') = sets (size d s) false [] s in (ret, sort ranges, s')
