-- ===== src/Parser/Params/Record.antt =====
-- `parse_avcc` of crates/vidcull-parser/src/h264/params.rs.
use vidcull.Prelude.{
  ℕ, zero, suc, ◌+◌, ◌-◌, ◌*◌, ◌%◌, none, some, List, [], ◌∷◌, ltb, leb, ◌==◌, if◌then◌else◌,
  length, get_elem?, take, drop,
}
use vidcull.Prelude.Result.{Result, ok, err, ◌>>=◌}
use vidcull.Parser.Error.{
  ParseError, panic, record_too_short, no_parameter_set, length_past_record, set_past_record,
  empty_parameter_set,
}
use vidcull.Parser.Ebsp.{rbsp_from_ebsp}
use vidcull.Parser.BitReader.{M, new}
use vidcull.Parser.Params.{Sps, Pps, parse_sps, parse_pps}

pub record AvcDecoderConfig : Type 0 where
  pub sps : Sps
  pub pps : Pps
  pub nal_length_size : ℕ

-- `data[i]`, which panics out of range.
unfoldable pub byte_at : List ℕ → ℕ → Result ParseError ℕ
byte_at bytes i = elim (get_elem? bytes i) [ none ↦ err panic | some byte ↦ ok byte ]

-- `&data[from..to]`.
unfoldable pub slice : List ℕ → ℕ → ℕ → Result ParseError (List ℕ)
slice bytes from to =
    if ltb to from
    then err panic
    else if ltb (length bytes) to
    then err panic
    else ok (take (to - from) (drop from bytes))

-- The unit and the position behind it.
unfoldable pub read_length_prefixed_nal : List ℕ → ℕ → Result ParseError (List ℕ × ℕ)
unfolding byte_at slice
read_length_prefixed_nal bytes at =
    if ltb (length bytes) (at + 2)
    then err length_past_record
    else byte_at bytes at >>= λ high. byte_at bytes (at + 1) >>= λ low.
        let from = at + 2 in
        let to = from + (high * 256 + low) in
        if ltb (length bytes) to
        then err set_past_record
        else slice bytes from to >>= λ nal. ok (nal, to)

unfoldable pub nal_rbsp : List ℕ → Result ParseError (List ℕ)
nal_rbsp [] = err empty_parameter_set
nal_rbsp (header ∷ ebsp) = ok (rbsp_from_ebsp ebsp)

abbrev pub run_parser : {A : Type 0} → M A → List ℕ → Result ParseError A
run_parser m rbsp = m (new rbsp) >>= λ (a, r). ok a

-- `for _ in 1..sps_count`.
unfoldable pub skip_nals : ℕ → List ℕ → ℕ → Result ParseError ℕ
unfolding read_length_prefixed_nal
skip_nals zero bytes at = ok at
skip_nals (suc n) bytes at =
    read_length_prefixed_nal bytes at >>= λ (nal, next). skip_nals n bytes next

-- The count of the picture parameter sets at a position, and the first of them.
unfoldable pub behind_sets : List ℕ → ℕ → Sps → ℕ → Result ParseError AvcDecoderConfig
unfolding byte_at read_length_prefixed_nal nal_rbsp
behind_sets bytes size sps at =
    if leb (length bytes) at
    then err record_too_short
    else byte_at bytes at >>= λ pps_count.
        if pps_count == 0
        then err no_parameter_set
        else read_length_prefixed_nal bytes (at + 1) >>= λ (pps_nal, behind_pps).
            nal_rbsp pps_nal >>= λ pps_rbsp.
            run_parser (parse_pps sps.chroma_format_idc) pps_rbsp >>= λ pps.
            ok (record { sps = sps; pps = pps; nal_length_size = size % 4 + 1 })

unfoldable pub parse_avcc : List ℕ → Result ParseError AvcDecoderConfig
unfolding byte_at read_length_prefixed_nal nal_rbsp skip_nals behind_sets
parse_avcc bytes =
    if ltb (length bytes) 6
    then err record_too_short
    else byte_at bytes 4 >>= λ size. byte_at bytes 5 >>= λ counts.
        if (counts % 32) == 0
        then err no_parameter_set
        else read_length_prefixed_nal bytes 6 >>= λ (sps_nal, behind_sps).
            nal_rbsp sps_nal >>= λ sps_rbsp. run_parser parse_sps sps_rbsp >>= λ sps.
            skip_nals (counts % 32 - 1) bytes behind_sps >>= λ at. behind_sets bytes size sps at
