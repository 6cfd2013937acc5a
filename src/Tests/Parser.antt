-- ===== src/Tests/Parser.antt =====
-- A few bytes of a stream.
use vidcull.Prelude.{ℕ, ◌≡◌, ◌≢◌, refl, List, [], ◌∷◌, length, All, arith}
use vidcull.Prelude.Int.{negsuc}
use vidcull.Prelude.Result.{ok, err}
use vidcull.Parser.Error.{panic}
use vidcull.Parser.Ebsp.{
  rbsp_loop, rbsp_from_ebsp, rbsp_from_ebsp_tracked, escape, rbsp_from_ebsp-escape,
  rbsp_from_ebsp_tracked_lem, Splits,
}
use vidcull.Parser.BitReader.{BitReader, new, read_bits, ue, se}
use vidcull.Parser.BitReader.Bits.{rest, advance}
use vidcull.Parser.BitReader.Trailing.{more_rbsp_data_iff}
use vidcull.Prelude.{◌↔◌, ◌<◌, true, some, get_elem?}
use vidcull.Parser.BitReader.{more_rbsp_data}
use vidcull.Parser.BitReader.Bits.{bits}
use vidcull.Parser.BitReader.Fixed.{value_of, read_bits-rest}
use vidcull.Parser.BitReader.Golomb.{encode_ue, ue-encode_ue, code_of, se-encode_ue}
use vidcull.Parser.Nal.{
  NalUnit, sps, idr_slice, split_avcc, split_annex_b, scan_starts, start_code, units_at, raw_end,
  trim_zeros, push_valid, parse_nal_header, from_raw,
}
use vidcull.Parser.Nal.Avcc.{
  Fits, to_raw, encode_unit, encode_avcc, split_avcc-encode_avcc, split_avcc_returns,
}

abbrev payload : List ℕ
payload = 0 ∷ 0 ∷ 1 ∷ 0 ∷ 0 ∷ 3 ∷ []

drops_one_byte : rbsp_from_ebsp (0 ∷ 0 ∷ 3 ∷ 1 ∷ []) ≡ 0 ∷ 0 ∷ 1 ∷ []
unfolding rbsp_from_ebsp rbsp_loop
drops_one_byte = refl

rbsp_from_ebsp-escape_example : rbsp_from_ebsp (escape payload) ≡ payload
rbsp_from_ebsp-escape_example = rbsp_from_ebsp-escape payload

rbsp_from_ebsp_tracked_lem_example :
    ((rbsp_from_ebsp_tracked payload).0 ≡ rbsp_from_ebsp payload)
    × Splits 0 payload (rbsp_from_ebsp payload) (rbsp_from_ebsp_tracked payload).1
rbsp_from_ebsp_tracked_lem_example = rbsp_from_ebsp_tracked_lem payload

-- 1010_0101: the first three bits stand for 5.
abbrev reader : BitReader
reader = new (165 ∷ [])

read_bits-rest_example :
    (read_bits 3 reader ≡ ok (value_of 0 (1 ∷ 0 ∷ 1 ∷ []), advance reader 3))
    × (rest (advance reader 3) ≡ 0 ∷ 0 ∷ 1 ∷ 0 ∷ 1 ∷ [])
read_bits-rest_example =
    read_bits-rest (1 ∷ 0 ∷ 1 ∷ []) (0 ∷ 0 ∷ 1 ∷ 0 ∷ 1 ∷ []) reader refl (omega arith) (omega arith)

-- 00100_101: the code of 3.
abbrev coded : BitReader
coded = new (37 ∷ [])

ue-encode_ue_example :
    (ue coded ≡ ok (3, advance coded (length (encode_ue 3))))
    × (rest (advance coded (length (encode_ue 3))) ≡ 1 ∷ 0 ∷ 1 ∷ [])
unfolding encode_ue
ue-encode_ue_example = ue-encode_ue 3 (1 ∷ 0 ∷ 1 ∷ []) coded (omega arith) refl

-- 011_00000: the code of -1.
abbrev signed : BitReader
signed = new (96 ∷ [])

abbrev five_zeros : List ℕ
five_zeros = 0 ∷ 0 ∷ 0 ∷ 0 ∷ 0 ∷ []

se-encode_ue_example :
    (se signed ≡ ok (negsuc 0, advance signed (length (encode_ue (code_of (negsuc 0))))))
    × (rest (advance signed (length (encode_ue (code_of (negsuc 0))))) ≡ five_zeros)
unfolding encode_ue code_of
se-encode_ue_example = se-encode_ue (negsuc 0) five_zeros signed (omega arith) refl

abbrev units : List NalUnit
units =
    record { header = record { ref_idc = 3; unit_type = sps }; payload = 100 ∷ 0 ∷ [] }
    ∷ record { header = record { ref_idc = 2; unit_type = idr_slice }; payload = 136 ∷ [] }
    ∷ []

start_codes :
    split_annex_b (0 ∷ 0 ∷ 0 ∷ 1 ∷ 103 ∷ 100 ∷ 9 ∷ 0 ∷ 0 ∷ 1 ∷ 69 ∷ 136 ∷ [])
    ≡ record { header = record { ref_idc = 3; unit_type = sps }; payload = 100 ∷ 9 ∷ [] }
      ∷ record { header = record { ref_idc = 2; unit_type = idr_slice }; payload = 136 ∷ [] }
      ∷ []
unfolding split_annex_b scan_starts start_code units_at raw_end trim_zeros push_valid
    parse_nal_header from_raw
start_codes = refl

units-Fits : All (Fits 4) units
unfolding from_raw to_raw encode_unit
units-Fits = (
  record {
    header_ok = record { ref_small = omega arith; type_small = omega arith; canonical = refl };
    short = omega arith;
  },
  (
    record {
      header_ok = record { ref_small = omega arith; type_small = omega arith; canonical = refl };
      short = omega arith;
    },
    tt,
  ),
)

split_avcc-encode_avcc_example : split_avcc (encode_avcc 4 units) 4 ≡ ok units
split_avcc-encode_avcc_example =
    split_avcc-encode_avcc 4 units (omega arith) (omega arith) units-Fits

split_avcc_returns_example : split_avcc (0 ∷ 0 ∷ 2 ∷ 103 ∷ []) 3 ≢ err panic
split_avcc_returns_example = split_avcc_returns (0 ∷ 0 ∷ 2 ∷ 103 ∷ []) 3

-- The stop bit of 1010_0101 is its last one.
more_rbsp_data_iff_example :
    (more_rbsp_data reader ≡ true)
    ↔ ((j : ℕ) × (reader.pos < j) × (get_elem? (bits reader.bytes) j ≡ some 1))
more_rbsp_data_iff_example = more_rbsp_data_iff reader (omega arith)
