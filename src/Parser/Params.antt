-- ===== src/Parser/Params.antt =====
-- crates/vidcull-parser/src/h264/params.rs: the sequence and picture parameter sets of H.264 and the
-- `avcC` record that carries them. A u32 or i32 wraps, as in a release build.
pub mod Record
pub mod Reads
pub mod Sequence
pub mod RoundTrip
pub mod Total
pub mod Guarded
use package.vidcull.Prelude.{
  ℕ, zero, suc, ◌+◌, ◌-◌, ◌*◌, ◌/◌, ◌%◌, ◌^◌, Bool, true, false, ◌&&◌, ◌||◌, not, Option, none,
  some, List, [], ◌∷◌, any, ltb, leb, ◌==◌, if◌then◌else◌, length, get_elem?, take, drop,
}
use package.vidcull.Prelude.Int.{ℤ, pos, negsuc}
use package.vidcull.Prelude.Result.{Result, ok, err}
use package.vidcull.Parser.Error.{
  ParseError, panic, field_out_of_range, slice_groups, record_too_short, no_parameter_set,
  length_past_record, set_past_record, empty_parameter_set,
}
use package.vidcull.Parser.Ebsp.{rbsp_from_ebsp}
use package.vidcull.Parser.BitReader.{
  BitReader, M, pure, fail, ◌>>=◌, ◌>>◌, read_bits, read_flag, ue, se, more_rbsp_data,
}

abbrev pub high_profile_idcs : List ℕ
high_profile_idcs = 100 ∷ 110 ∷ 122 ∷ 244 ∷ 44 ∷ 83 ∷ 86 ∷ 118 ∷ 128 ∷ 138 ∷ 139 ∷ 134 ∷ 135 ∷ []

abbrev pub add_u32 : ℕ → ℕ → ℕ
add_u32 a b = (a + b) % 2 ^ 32

abbrev pub mul_u32 : ℕ → ℕ → ℕ
mul_u32 a b = a * b % 2 ^ 32

-- `26 + v` on an i32.
abbrev pub add_26 : ℤ → ℤ
add_26 (pos m) = if ltb (m + 26) (2 ^ 31) then pos (m + 26) else negsuc (2 ^ 32 - (m + 27))
add_26 (negsuc m) = if ltb m 26 then pos (25 - m) else negsuc (m - 26)

pub record Sps : Type 0 where
  pub profile_idc : ℕ
  pub level_idc : ℕ
  pub seq_parameter_set_id : ℕ
  pub chroma_format_idc : ℕ
  pub separate_colour_plane_flag : Bool
  pub bit_depth_luma : ℕ
  pub log2_max_frame_num : ℕ
  pub pic_order_cnt_type : ℕ
  pub log2_max_pic_order_cnt_lsb : ℕ
  pub delta_pic_order_always_zero_flag : Bool
  pub max_num_ref_frames : ℕ
  pub pic_width_in_mbs : ℕ
  pub pic_height_in_map_units : ℕ
  pub frame_mbs_only_flag : Bool
  pub mb_adaptive_frame_field_flag : Bool
  pub direct_8x8_inference_flag : Bool
  pub frame_crop_left_offset : ℕ
  pub frame_crop_right_offset : ℕ
  pub frame_crop_top_offset : ℕ
  pub frame_crop_bottom_offset : ℕ

abbrev pub chroma_array_type : Sps → ℕ
chroma_array_type s = if s.separate_colour_plane_flag then 0 else s.chroma_format_idc

-- `2 - u32::from(frame_mbs_only_flag)`.
abbrev pub field_factor : Sps → ℕ
field_factor s = if s.frame_mbs_only_flag then 1 else 2

abbrev pub sub_sampling : ℕ → ℕ × ℕ
sub_sampling chroma_format_idc =
    if chroma_format_idc == 1 then (2, 2) else if chroma_format_idc == 2 then (2, 1) else (1, 1)

abbrev pub crop_unit : Sps → ℕ × ℕ
crop_unit s =
    if chroma_array_type s == 0
    then (1, field_factor s)
    else let (x, y) = sub_sampling s.chroma_format_idc in (x, y * field_factor s)

unfoldable pub luma_dimensions : Sps → ℕ × ℕ
luma_dimensions s =
    let width = mul_u32 s.pic_width_in_mbs 16 in
    let height = mul_u32 (mul_u32 (field_factor s) s.pic_height_in_map_units) 16 in
    let (crop_unit_x, crop_unit_y) = crop_unit s in
    (
      width - mul_u32 crop_unit_x (add_u32 s.frame_crop_left_offset s.frame_crop_right_offset),
      height - mul_u32 crop_unit_y (add_u32 s.frame_crop_top_offset s.frame_crop_bottom_offset),
    )

pub record Pps : Type 0 where
  pub pic_parameter_set_id : ℕ
  pub seq_parameter_set_id : ℕ
  pub entropy_coding_mode_flag : Bool
  pub bottom_field_pic_order_in_frame_present_flag : Bool
  pub num_ref_idx_l0_default_active : ℕ
  pub num_ref_idx_l1_default_active : ℕ
  pub weighted_pred_flag : Bool
  pub pic_init_qp : ℤ
  pub chroma_qp_index_offset : ℤ
  pub deblocking_filter_control_present_flag : Bool
  pub constrained_intra_pred_flag : Bool
  pub redundant_pic_cnt_present_flag : Bool
  pub transform_8x8_mode_flag : Bool

-- `u8::try_from`.
unfoldable pub to_u8 : ℕ → M ℕ
to_u8 v = if leb 256 v then fail field_out_of_range else pure v

-- `(last + delta + 256).rem_euclid(256)`; a wrap of the i32 does not change the remainder.
abbrev pub next_scale_of : ℕ → ℤ → ℕ
next_scale_of last (pos d) = (last + d + 256) % 256
next_scale_of last (negsuc d) = (last + 256 - (d + 1) % 256) % 256

unfoldable pub scaling_loop : ℕ → ℕ → ℕ → M (Unit {0})
scaling_loop zero last next = pure tt
scaling_loop (suc n) last next = elim (next == 0) [
  | true ↦ scaling_loop n last 0
  | false ↦ se >>= λ delta.
      let next' = next_scale_of last delta in
      scaling_loop n (if next' == 0 then last else next') next'
]

unfoldable pub consume_scaling_list : ℕ → M (Unit {0})
unfolding scaling_loop
consume_scaling_list size = scaling_loop size 8 8

-- From the i-th of the lists on, n of them.
unfoldable pub matrices_loop : ℕ → ℕ → M (Unit {0})
matrices_loop zero i = pure tt
matrices_loop (suc n) i = read_flag >>= λ present.
    (if present then consume_scaling_list (if ltb i 6 then 16 else 64) else pure tt)
    >> matrices_loop n (i + 1)

unfoldable pub consume_scaling_matrices : ℕ → M (Unit {0})
unfolding matrices_loop
consume_scaling_matrices count = matrices_loop count 0

-- A flag that is read only under a condition.
unfoldable pub optional_flag : Bool → M Bool
optional_flag true = read_flag
optional_flag false = pure false

unfoldable pub optional_matrices : Bool → ℕ → M (Unit {0})
unfolding consume_scaling_matrices
optional_matrices true count = consume_scaling_matrices count
optional_matrices false count = pure tt

-- The chroma format, its planes and the luma depth of the high profiles.
unfoldable pub high_chroma : M (ℕ × Bool × ℕ)
unfolding optional_flag optional_matrices
high_chroma = ue >>= λ chroma_format_idc. optional_flag (chroma_format_idc == 3) >>= λ separate.
    ue >>= λ luma. ue >>= λ chroma. read_flag >>= λ bypass. read_flag >>= λ scaling.
    optional_matrices scaling (if chroma_format_idc == 3 then 12 else 8) >>= λ done.
    pure (chroma_format_idc, separate, add_u32 8 luma)

abbrev pub is_high : ℕ → Bool
is_high profile_idc = any (λ p. p == profile_idc) high_profile_idcs

unfoldable pub parse_chroma : Bool → M (ℕ × Bool × ℕ)
unfolding high_chroma
parse_chroma true = high_chroma
parse_chroma false = pure (1, false, 8)

unfoldable pub skip_se : ℕ → M (Unit {0})
skip_se zero = pure tt
skip_se (suc n) = se >>= λ v. skip_se n

unfoldable pub cyclic_order : M (ℕ × ℕ × Bool)
unfolding skip_se
cyclic_order = read_flag >>= λ always_zero. se >>= λ non_ref.
    se >>= λ top_to_bottom. ue >>= λ cycle. skip_se cycle >>= λ done. pure (1, 0, always_zero)

-- What follows the type of the picture order count: the log2 of its low part, and its flag.
unfoldable pub order_of : ℕ → M (ℕ × ℕ × Bool)
unfolding cyclic_order
order_of zero = ue >>= λ lsb. pure (0, add_u32 4 lsb, false)
order_of (suc zero) = cyclic_order
order_of (suc (suc kind)) = pure (suc (suc kind), 0, false)

unfoldable pub parse_order : M (ℕ × ℕ × Bool)
unfolding order_of
parse_order = ue >>= order_of

unfoldable pub crop_of : Bool → M (ℕ × ℕ × ℕ × ℕ)
crop_of true =
    ue >>= λ left. ue >>= λ right. ue >>= λ top. ue >>= λ bottom. pure (left, right, top, bottom)
crop_of false = pure (0, 0, 0, 0)

unfoldable pub parse_crop : M (ℕ × ℕ × ℕ × ℕ)
unfolding crop_of
parse_crop = read_flag >>= crop_of

-- From `log2_max_frame_num` on, with what the set began with.
unfoldable pub frame_fields : ℕ → ℕ → ℕ → ℕ × Bool × ℕ → M Sps
unfolding parse_order parse_crop optional_flag
frame_fields profile_idc level_idc seq_parameter_set_id
      (chroma_format_idc, separate, bit_depth_luma) =
    ue >>= λ frame_num. parse_order >>= λ (order_type, lsb, always_zero).
    ue >>= λ max_num_ref_frames. read_flag >>= λ gaps. ue >>= λ width. ue >>= λ height.
    read_flag >>= λ frame_mbs_only. optional_flag (not frame_mbs_only) >>= λ adaptive.
    read_flag >>= λ direct. parse_crop >>= λ (left, right, top, bottom). pure (record {
      profile_idc = profile_idc;
      level_idc = level_idc;
      seq_parameter_set_id = seq_parameter_set_id;
      chroma_format_idc = chroma_format_idc;
      separate_colour_plane_flag = separate;
      bit_depth_luma = bit_depth_luma;
      log2_max_frame_num = add_u32 4 frame_num;
      pic_order_cnt_type = order_type;
      log2_max_pic_order_cnt_lsb = lsb;
      delta_pic_order_always_zero_flag = always_zero;
      max_num_ref_frames = max_num_ref_frames;
      pic_width_in_mbs = add_u32 width 1;
      pic_height_in_map_units = add_u32 height 1;
      frame_mbs_only_flag = frame_mbs_only;
      mb_adaptive_frame_field_flag = adaptive;
      direct_8x8_inference_flag = direct;
      frame_crop_left_offset = left;
      frame_crop_right_offset = right;
      frame_crop_top_offset = top;
      frame_crop_bottom_offset = bottom;
    })

unfoldable pub parse_sps : M Sps
unfolding parse_chroma frame_fields to_u8
parse_sps = read_bits 8 >>= λ profile. to_u8 profile >>= λ profile_idc.
    read_bits 8 >>= λ constraints. read_bits 8 >>= λ level. to_u8 level >>= λ level_idc.
    ue >>= λ seq_parameter_set_id. parse_chroma (is_high profile_idc) >>= λ chroma.
    frame_fields profile_idc level_idc seq_parameter_set_id chroma

unfoldable pub transform_fields : ℕ → M Bool
unfolding optional_matrices
transform_fields chroma_format_idc = read_flag >>= λ transform_8x8. read_flag >>= λ matrices.
    optional_matrices matrices
      (6 + (if chroma_format_idc == 3 then 6 else 2) * (if transform_8x8 then 1 else 0))
    >>= λ done. se >>= λ second_offset. pure transform_8x8

-- What follows in a picture parameter set if there is more than its trailing bits.
unfoldable pub parse_transform : ℕ → M Bool
unfolding transform_fields
parse_transform chroma_format_idc r =
    if more_rbsp_data r then transform_fields chroma_format_idc r else ok (false, r)

-- What a picture parameter set has behind the number of its slice groups, after the first fields.
unfoldable pub picture_fields : ℕ → ℕ → ℕ → Bool → Bool → M Pps
unfolding parse_transform
picture_fields chroma_format_idc pic_parameter_set_id seq_parameter_set_id entropy bottom_field =
    ue >>= λ l0. ue >>= λ l1. read_flag >>= λ weighted. read_bits 2 >>= λ bipred. se >>= λ qp.
    se >>= λ qs. se >>= λ chroma_offset. read_flag >>= λ deblocking. read_flag >>= λ constrained.
    read_flag >>= λ redundant. parse_transform chroma_format_idc >>= λ transform_8x8. pure (record {
      pic_parameter_set_id = pic_parameter_set_id;
      seq_parameter_set_id = seq_parameter_set_id;
      entropy_coding_mode_flag = entropy;
      bottom_field_pic_order_in_frame_present_flag = bottom_field;
      num_ref_idx_l0_default_active = add_u32 l0 1;
      num_ref_idx_l1_default_active = add_u32 l1 1;
      weighted_pred_flag = weighted;
      pic_init_qp = add_26 qp;
      chroma_qp_index_offset = chroma_offset;
      deblocking_filter_control_present_flag = deblocking;
      constrained_intra_pred_flag = constrained;
      redundant_pic_cnt_present_flag = redundant;
      transform_8x8_mode_flag = transform_8x8;
    })

unfoldable pub parse_pps : ℕ → M Pps
unfolding picture_fields
parse_pps chroma_format_idc = ue >>= λ pic_parameter_set_id. ue >>= λ seq_parameter_set_id.
    read_flag >>= λ entropy. read_flag >>= λ bottom_field. ue >>= λ groups.
    if ltb 1 (add_u32 groups 1)
    then fail slice_groups
    else picture_fields chroma_format_idc pic_parameter_set_id seq_parameter_set_id entropy
        bottom_field
