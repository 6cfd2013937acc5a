-- ===== src/Parser/Params/RoundTrip.antt =====
-- A whole sequence parameter set through `parse_sps` of crates/vidcull-parser/src/h264/params.rs.
use vidcull.Prelude.{
  ℕ, ◌+◌, ◌%◌, ◌^◌, ◌<◌, ◌≡◌, Bool, ◌&&◌, not, Option, List, [], ◌++◌, gt→leb, if◌then◌else◌, arith,
}
use vidcull.Parser.BitReader.{pure, read_bits, read_flag, ue}
use vidcull.Parser.BitReader.Golomb.{encode_ue}
use vidcull.Parser.Params.{
  Sps, add_u32, is_high, to_u8, optional_flag, parse_chroma, parse_order, parse_crop, frame_fields,
  parse_sps,
}
use vidcull.Parser.Params.Reads.{
  Reads, pure-Reads, bind-Reads, ue-Reads, encode_flag, flag-Reads, encode_byte, byte-Reads,
  silent-Reads,
}
use vidcull.Parser.Params.Sequence.{
  ChromaSyntax, OrderSyntax, CropSyntax, Codes, encode_chroma, chroma_of, FitsChroma,
  parse_chroma-Reads, encode_order, order_meaning, FitsOrder, parse_order-Reads, encode_crop,
  crop_meaning, FitsCrop, parse_crop-Reads, optional_flag-Reads,
}

pub record SpsSyntax : Type 0 where
  pub profile_idc : ℕ
  pub constraints : ℕ
  pub level_idc : ℕ
  pub id : ℕ
  pub chroma : ChromaSyntax
  pub frame_num_minus4 : ℕ
  pub order : OrderSyntax
  pub max_num_ref_frames : ℕ
  pub gaps : Bool
  pub width_minus1 : ℕ
  pub height_minus1 : ℕ
  pub frame_mbs_only : Bool
  pub adaptive : Bool
  pub direct_8x8 : Bool
  pub crop : Option CropSyntax

-- The set that the syntax elements stand for.
unfoldable pub sps_of : SpsSyntax → Sps
sps_of s =
    let chroma = chroma_of (is_high s.profile_idc) s.chroma in
    let order = order_meaning s.order in
    let crop = crop_meaning s.crop in
    record {
      profile_idc = s.profile_idc;
      level_idc = s.level_idc;
      seq_parameter_set_id = s.id;
      chroma_format_idc = chroma.0;
      separate_colour_plane_flag = chroma.1;
      bit_depth_luma = chroma.2;
      log2_max_frame_num = 4 + s.frame_num_minus4;
      pic_order_cnt_type = order.0;
      log2_max_pic_order_cnt_lsb = order.1;
      delta_pic_order_always_zero_flag = order.2;
      max_num_ref_frames = s.max_num_ref_frames;
      pic_width_in_mbs = s.width_minus1 + 1;
      pic_height_in_map_units = s.height_minus1 + 1;
      frame_mbs_only_flag = s.frame_mbs_only;
      mb_adaptive_frame_field_flag = not s.frame_mbs_only && s.adaptive;
      direct_8x8_inference_flag = s.direct_8x8;
      frame_crop_left_offset = crop.0;
      frame_crop_right_offset = crop.1;
      frame_crop_top_offset = crop.2;
      frame_crop_bottom_offset = crop.3;
    }

pub encode_frame : SpsSyntax → List ℕ
encode_frame s =
    encode_ue s.frame_num_minus4
    ++ (encode_order s.order
        ++ (encode_ue s.max_num_ref_frames
            ++ (encode_flag s.gaps
                ++ (encode_ue s.width_minus1
                    ++ (encode_ue s.height_minus1
                        ++ (encode_flag s.frame_mbs_only
                            ++ ((if not s.frame_mbs_only then encode_flag s.adaptive else [])
                                ++ (encode_flag s.direct_8x8 ++ (encode_crop s.crop ++ [])))))))))

pub encode_sps : SpsSyntax → List ℕ
encode_sps s =
    encode_byte s.profile_idc
    ++ (encode_byte s.constraints
        ++ (encode_byte s.level_idc
            ++ (encode_ue s.id
                ++ (encode_chroma (is_high s.profile_idc) s.chroma ++ encode_frame s))))

-- Every element fits in its code, and every sum in a u32.
pub record Fits (s : SpsSyntax) : Type 0 where
  pub profile : s.profile_idc < 256
  pub constraints : s.constraints < 256
  pub level_byte : s.level_idc < 256
  pub id : Codes s.id
  pub chroma : FitsChroma s.chroma
  pub frame_num : 4 + s.frame_num_minus4 < 2 ^ 32
  pub order : FitsOrder s.order
  pub refs : Codes s.max_num_ref_frames
  pub width : Codes s.width_minus1
  pub height : Codes s.height_minus1
  pub crop : FitsCrop s.crop

to_u8-Reads : (v : ℕ) → v < 256 → Reads (to_u8 v) [] v
unfolding to_u8
to_u8-Reads v h = rw (gt→leb 256 v h) (pure-Reads v)

-- The values after the wraps, which do nothing.
end-Reads :
    (a b c : ℕ) (value : ℕ → ℕ → ℕ → Sps)
    → 4 + a < 2 ^ 32
    → b + 1 < 2 ^ 32
    → c + 1 < 2 ^ 32
    → Reads
        (pure (value (add_u32 4 a) (add_u32 b 1) (add_u32 c 1)))
        []
        (value (4 + a) (b + 1) (c + 1))
end-Reads a b c value ha hb hc =
    let fa : (4 + a) % 2 ^ 32 ≡ 4 + a = omega arith in
    let fb : (b + 1) % 2 ^ 32 ≡ b + 1 = omega arith in
    let fc : (c + 1) % 2 ^ 32 ≡ c + 1 = omega arith in
    rw (fa, fb, fc) (pure-Reads (value (4 + a) (b + 1) (c + 1)))

frame-Reads :
    (s : SpsSyntax)
    → Fits s
    → Reads
        (frame_fields s.profile_idc s.level_idc s.id (chroma_of (is_high s.profile_idc) s.chroma))
        (encode_frame s)
        (sps_of s)
unfolding frame_fields encode_frame sps_of
frame-Reads s w =
    let chroma = chroma_of (is_high s.profile_idc) s.chroma in
    let order = order_meaning s.order in
    let crop = crop_meaning s.crop in
    bind-Reads ue _ (encode_ue s.frame_num_minus4) _ s.frame_num_minus4 _
      (ue-Reads s.frame_num_minus4 (omega (arith, w.frame_num)))
      (bind-Reads parse_order _ (encode_order s.order) _ (order_meaning s.order) _
        (parse_order-Reads s.order w.order)
        (bind-Reads ue _ (encode_ue s.max_num_ref_frames) _ s.max_num_ref_frames _
          (ue-Reads s.max_num_ref_frames w.refs)
          (bind-Reads read_flag _ (encode_flag s.gaps) _ s.gaps _ (flag-Reads s.gaps) (
            bind-Reads ue _ (encode_ue s.width_minus1) _ s.width_minus1 _
              (ue-Reads s.width_minus1 w.width)
              (bind-Reads ue _ (encode_ue s.height_minus1) _ s.height_minus1 _
                (ue-Reads s.height_minus1 w.height)
                (bind-Reads read_flag _ (encode_flag s.frame_mbs_only) _ s.frame_mbs_only _
                  (flag-Reads s.frame_mbs_only)
                  (bind-Reads (optional_flag (not s.frame_mbs_only)) _ _ _
                    (not s.frame_mbs_only && s.adaptive) _
                    (optional_flag-Reads (not s.frame_mbs_only) s.adaptive)
                    (bind-Reads read_flag _ (encode_flag s.direct_8x8) _ s.direct_8x8 _
                      (flag-Reads s.direct_8x8)
                      (bind-Reads parse_crop _ (encode_crop s.crop) [] (crop_meaning s.crop) _
                        (parse_crop-Reads s.crop w.crop)
                        (end-Reads s.frame_num_minus4 s.width_minus1 s.height_minus1
                          (λ frame_num width height. record {
                            profile_idc = s.profile_idc;
                            level_idc = s.level_idc;
                            seq_parameter_set_id = s.id;
                            chroma_format_idc = chroma.0;
                            separate_colour_plane_flag = chroma.1;
                            bit_depth_luma = chroma.2;
                            log2_max_frame_num = frame_num;
                            pic_order_cnt_type = order.0;
                            log2_max_pic_order_cnt_lsb = order.1;
                            delta_pic_order_always_zero_flag = order.2;
                            max_num_ref_frames = s.max_num_ref_frames;
                            pic_width_in_mbs = width;
                            pic_height_in_map_units = height;
                            frame_mbs_only_flag = s.frame_mbs_only;
                            mb_adaptive_frame_field_flag = not s.frame_mbs_only && s.adaptive;
                            direct_8x8_inference_flag = s.direct_8x8;
                            frame_crop_left_offset = crop.0;
                            frame_crop_right_offset = crop.1;
                            frame_crop_top_offset = crop.2;
                            frame_crop_bottom_offset = crop.3;
                          })
                          w.frame_num (omega (arith, w.width)) (omega (arith, w.height))))))))))))

-- `parse_sps` reads back every sequence parameter set without scaling matrices from its bits, whatever
-- the elements that it skips are, and leaves what is behind them.
pub parse_sps-encode_sps : (s : SpsSyntax) → Fits s → Reads parse_sps (encode_sps s) (sps_of s)
unfolding parse_sps encode_sps
parse_sps-encode_sps s w =
    bind-Reads (read_bits 8) _ (encode_byte s.profile_idc) _ s.profile_idc _
      (byte-Reads s.profile_idc w.profile)
      (silent-Reads (to_u8 s.profile_idc) _ _ s.profile_idc _ (to_u8-Reads s.profile_idc w.profile)
        (bind-Reads (read_bits 8) _ (encode_byte s.constraints) _ s.constraints _
          (byte-Reads s.constraints w.constraints)
          (bind-Reads (read_bits 8) _ (encode_byte s.level_idc) _ s.level_idc _
            (byte-Reads s.level_idc w.level_byte)
            (silent-Reads (to_u8 s.level_idc) _ _ s.level_idc _
              (to_u8-Reads s.level_idc w.level_byte)
              (bind-Reads ue _ (encode_ue s.id) _ s.id _ (ue-Reads s.id w.id) (
                bind-Reads (parse_chroma (is_high s.profile_idc)) _
                  (encode_chroma (is_high s.profile_idc) s.chroma) (encode_frame s)
                  (chroma_of (is_high s.profile_idc) s.chroma) (sps_of s)
                  (parse_chroma-Reads (is_high s.profile_idc) s.chroma w.chroma)
                  (frame-Reads s w)))))))
