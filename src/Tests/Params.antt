-- ===== src/Tests/Params.antt =====
-- A sequence parameter set of 1280 by 720 pixels.
use vidcull.Prelude.{ℕ, ◌≡◌, ◌≢◌, refl, true, false, some, List, [], ◌∷◌, arith}
use vidcull.Prelude.Result.{err}
use vidcull.Parser.Error.{panic, set_past_record}
use vidcull.Parser.Params.{parse_sps}
use vidcull.Parser.Params.Record.{parse_avcc}
use vidcull.Parser.Params.Reads.{Reads}
use vidcull.Parser.Params.Sequence.{counted}
use vidcull.Parser.Params.RoundTrip.{SpsSyntax, sps_of, encode_sps, Fits, parse_sps-encode_sps}
use vidcull.Parser.Params.Guarded.{parse_avcc_guarded}

abbrev hd : SpsSyntax
hd = record {
  profile_idc = 100;
  constraints = 0;
  level_idc = 31;
  id = 0;
  chroma = record {
    format = 1;
    separate = false;
    luma_minus8 = 0;
    chroma_minus8 = 0;
    bypass = false;
  };
  frame_num_minus4 = 0;
  order = counted 2;
  max_num_ref_frames = 4;
  gaps = false;
  width_minus1 = 79;
  height_minus1 = 44;
  frame_mbs_only = true;
  adaptive = false;
  direct_8x8 = true;
  crop = some (record { left = 0; right = 0; top = 0; bottom = 4 });
}

hd-Fits : Fits hd
hd-Fits = record {
  profile = omega arith;
  constraints = omega arith;
  level_byte = omega arith;
  id = omega arith;
  chroma = record { format = omega arith; luma = omega arith; chroma = omega arith };
  frame_num = omega arith;
  order = omega arith;
  refs = omega arith;
  width = omega arith;
  height = omega arith;
  crop = (omega arith, omega arith, omega arith, omega arith);
}

parse_sps-encode_sps_example : Reads parse_sps (encode_sps hd) (sps_of hd)
parse_sps-encode_sps_example = parse_sps-encode_sps hd hd-Fits

-- Eleven one bytes: the length of the first set goes past the record.
abbrev ones : List ℕ
ones = 1 ∷ 1 ∷ 1 ∷ 1 ∷ 1 ∷ 1 ∷ 1 ∷ 1 ∷ 1 ∷ 1 ∷ 1 ∷ []

too_long : parse_avcc ones ≡ err set_past_record
unfolding parse_avcc
too_long = refl

parse_avcc_guarded_example : parse_avcc ones ≢ err panic
parse_avcc_guarded_example = parse_avcc_guarded ones
