-- ===== src/Parser/Nal.antt =====
-- crates/vidcull-parser/src/h264/nal.rs: NAL units of an Annex B byte stream and of AVCC samples.
-- In Annex B a position in the buffer is the list of the bytes from there on.
pub mod Suffix
pub mod Avcc
use package.vidcull.Prelude.{
  ℕ, zero, suc, ◌+◌, ◌-◌, ◌*◌, ◌/◌, ◌%◌, Bool, true, false, ◌&&◌, ◌||◌, List, [], ◌∷◌, ltb, leb,
  ◌==◌, if◌then◌else◌, length, get_or, take, drop,
}
use package.vidcull.Prelude.Result.{Result, ok, err, ◌>>=◌}
use package.vidcull.Parser.Error.{
  ParseError, panic, forbidden_zero_bit, length_size_range, length_past_buffer, nal_past_buffer,
}

pub data NalUnitType : Type 0 where
  non_idr_slice idr_slice sei sps pps access_unit_delimiter : NalUnitType
  other : ℕ → NalUnitType

unfoldable pub from_raw : ℕ → NalUnitType
from_raw raw =
    if raw == 1
    then non_idr_slice
    else if raw == 5
    then idr_slice
    else if raw == 6
    then sei
    else if raw == 7
    then sps
    else if raw == 8
    then pps
    else if raw == 9
    then access_unit_delimiter
    else other raw

pub record NalHeader : Type 0 where
  pub ref_idc : ℕ
  pub unit_type : NalUnitType

pub record NalUnit : Type 0 where
  pub header : NalHeader
  pub payload : List ℕ

unfoldable pub parse_nal_header : ℕ → Result ParseError NalHeader
unfolding from_raw
parse_nal_header byte =
    if byte / 128 == 0
    then ok (record { ref_idc = byte / 32 % 4; unit_type = from_raw (byte % 32) })
    else err forbidden_zero_bit

-- How many bytes the start code at the head of `bytes` has; 0 if there is none.
unfoldable pub start_code : List ℕ → ℕ
start_code bytes =
    if get_or bytes 0 1 == 0 && get_or bytes 1 1 == 0
    then if get_or bytes 2 2 == 1
      then 3
      else if get_or bytes 2 2 == 0 && get_or bytes 3 2 == 1
      then 4
      else 0
    else 0

-- `nal_starts`; each turn of the loop takes at least one byte of the `fuel` that are left.
unfoldable pub scan_starts : ℕ → ℕ → List ℕ → List ℕ
unfolding start_code
scan_starts zero i bytes = []
scan_starts (suc fuel) i bytes =
    let code = start_code bytes in
    let step = if code == 0 then 1 else code in
    let rest = scan_starts fuel (i + step) (drop step bytes) in
    if ltb (length bytes) 3 then [] else if code == 0 then rest else (i + code) ∷ rest

-- `while end > start && data[end - 1] == 0x00 { end -= 1; }`.
unfoldable pub trim_zeros : List ℕ → ℕ → ℕ → ℕ
trim_zeros bytes start zero = zero
trim_zeros bytes start (suc end) =
    let shorter = trim_zeros bytes start end in
    if ltb start (suc end) && get_or bytes end 1 == 0 then shorter else suc end

unfoldable pub raw_end : List ℕ → ℕ → List ℕ → ℕ
unfolding trim_zeros
raw_end bytes start [] = length bytes
raw_end bytes start (next ∷ later) =
    trim_zeros bytes start (if ltb 0 next && get_or bytes (next - 1) 0 == 1 then next - 1 else next)

-- The unit of the bytes `raw` before the units that follow; none if it is empty or its header is bad.
unfoldable pub push_valid : List ℕ → List NalUnit → List NalUnit
unfolding parse_nal_header
push_valid [] units = units
push_valid (b ∷ payload) units = elim (parse_nal_header b) [
  | ok header ↦ record { header = header; payload = payload } ∷ units
  | err e ↦ units
]

unfoldable pub units_at : List ℕ → List ℕ → List NalUnit
unfolding raw_end push_valid
units_at bytes [] = []
units_at bytes (start ∷ later) =
    push_valid (take (raw_end bytes start later - start) (drop start bytes)) (units_at bytes later)

unfoldable pub split_annex_b : List ℕ → List NalUnit
unfolding scan_starts units_at
split_annex_b bytes = units_at bytes (scan_starts (length bytes) 0 bytes)

-- `nal_len = (nal_len << 8) | b` for each byte; four bytes fit in a usize.
unfoldable pub be_length : ℕ → List ℕ → ℕ
be_length acc [] = acc
be_length acc (b ∷ bs) = be_length (acc * 256 + b) bs

-- The unit of `raw` before what the loop returns for the bytes after it; an empty one is passed over.
unfoldable pub push_unit :
    List ℕ → Result ParseError (List NalUnit) → Result ParseError (List NalUnit)
push_unit [] more = more
push_unit (b ∷ payload) more = parse_nal_header b >>= λ header.
    more >>= λ units. ok (record { header = header; payload = payload } ∷ units)

-- `&bytes[from..to]`.
unfoldable pub range_of : List ℕ → ℕ → ℕ → Result ParseError (List ℕ)
range_of bytes from to =
    if leb from to && leb to (length bytes)
    then ok (take (to - from) (drop from bytes))
    else err panic

-- The loop with `pos`; out of fuel is a panic too.
unfoldable pub avcc_loop : ℕ → ℕ → List ℕ → ℕ → Result ParseError (List NalUnit)
avcc_loop zero length_size bytes pos = if leb (length bytes) pos then ok [] else err panic
avcc_loop (suc fuel) length_size bytes pos =
    let length_end = pos + length_size in
    if leb (length bytes) pos
    then ok []
    else if ltb (length bytes) length_end
    then err length_past_buffer
    else range_of bytes pos length_end >>= λ field.
        let nal_end = length_end + be_length 0 field in
        if ltb (length bytes) nal_end
        then err nal_past_buffer
        else range_of bytes length_end nal_end >>= λ raw.
            push_unit raw (avcc_loop fuel length_size bytes nal_end)

unfoldable pub split_avcc : List ℕ → ℕ → Result ParseError (List NalUnit)
split_avcc bytes length_size =
    if leb 1 length_size && leb length_size 4
    then avcc_loop (length bytes) length_size bytes 0
    else err length_size_range
