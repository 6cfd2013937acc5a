-- ===== src/Parser/Error.antt =====
-- The `Error::Parse` values of crates/vidcull-parser/src/h264, one constructor for each message
-- less the numbers in it; `panic` stands for an index out of range.
pub data ParseError : Type 0 where
  panic : ParseError
  read_past_end : ParseError
  read_bits_over_32 : ParseError
  read_bits_past_end : ParseError
  skip_past_end : ParseError
  prefix_too_long : ParseError
  se_out_of_range : ParseError
  forbidden_zero_bit : ParseError
  length_size_range : ParseError
  length_past_buffer : ParseError
  nal_past_buffer : ParseError
  field_out_of_range : ParseError
  slice_groups : ParseError
  record_too_short : ParseError
  no_parameter_set : ParseError
  length_past_record : ParseError
  set_past_record : ParseError
  empty_parameter_set : ParseError
