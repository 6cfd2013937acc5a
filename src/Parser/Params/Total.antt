-- ===== src/Parser/Params/Total.antt =====
-- No parser of crates/vidcull-parser/src/h264/params.rs reads out of range.
use vidcull.Prelude.{
  ℕ, zero, suc, ◌+◌, ◌/◌, ◌^◌, not, ◌≡◌, ◌≢◌, sym, ap, ◌∙◌, inl, inr, Bool, true, false, ltb, leb,
  ◌==◌, Bool-cases, leb→gt, if◌then◌else◌,
}
use vidcull.Prelude.Int.{ℤ}
use vidcull.Prelude.Result.{Result, err, Result-cases}
use vidcull.Parser.Error.{
  ParseError, panic, read_past_end, read_bits_over_32, read_bits_past_end, prefix_too_long,
  se_out_of_range, field_out_of_range,
}
use vidcull.Parser.BitReader.{
  BitReader, M, pure, fail, ◌>>=◌, total_bits, bits_remaining, read_bit, read_loop, read_bits,
  read_flag, ue_prefix, ue_suffix, ue, se_of, se,
}
use vidcull.Parser.BitReader.Bits.{bind_err, bind_ok, read_within}
use vidcull.Parser.Params.{
  to_u8, scaling_loop, consume_scaling_list, matrices_loop, consume_scaling_matrices, optional_flag,
  optional_matrices, high_chroma, is_high, parse_chroma, skip_se, cyclic_order, order_of,
  parse_order, crop_of, parse_crop, frame_fields, parse_sps, next_scale_of,
}

abbrev pub IsSafe : {A : Type 0} → M A → Type 0
IsSafe m = (r : BitReader) → m r ≢ err panic

pub pure-IsSafe : {A : Type 0} (a : A) → IsSafe (pure a)
pure-IsSafe a r e = cc

pub err-injective :
    {A : Type 0} {x y : ParseError} → ◌≡◌ {A = Result ParseError A} (err x) (err y) → x ≡ y
err-injective e = cc

pub bind-IsSafe :
    {A B : Type 0} {m : M A} {k : A → M B} → IsSafe m → ((a : A) → IsSafe (k a)) → IsSafe (m >>= k)
bind-IsSafe {m = m} {k = k} safe then_safe r e = elim (Result-cases (m r)) [
  | inl ((a, r'), ran) ↦ then_safe a r' (sym (bind_ok m k r r' a ran) ∙ e)
  | inr (why, ran) ↦ safe r (ran ∙ ap err (err-injective (sym (bind_err m k r why ran) ∙ e)))
]

ended : (r : BitReader) → leb (total_bits r) r.pos ≡ true → read_bit r ≡ err panic → ⊥
unfolding read_bit
ended r past e = let e' : err read_past_end ≡ err panic = rw past at e in cc

read_bit-IsSafe : IsSafe read_bit
read_bit-IsSafe r e = elim (Bool-cases (leb (total_bits r) r.pos)) [
  | inl past ↦ ended r past e
  | inr inside ↦
      let (b, ran, split) = read_within r (leb→gt (total_bits r) r.pos inside) in
      let clash = sym ran ∙ e in cc
]

read_loop-IsSafe : (n value : ℕ) → IsSafe (read_loop n value)
unfolding read_loop
read_loop-IsSafe zero value = pure-IsSafe value
read_loop-IsSafe (suc n) value = bind-IsSafe read_bit-IsSafe (λ bit. read_loop-IsSafe n _)

pub read_bits-IsSafe : (n : ℕ) → IsSafe (read_bits n)
unfolding read_bits
read_bits-IsSafe n r e = elim (Bool-cases (ltb 32 n)) [
  | inl big ↦ let e' : err read_bits_over_32 ≡ err panic = rw big at e in cc
  | inr fits ↦ elim (Bool-cases (ltb (bits_remaining r) n)) [
    | inl past ↦ let e' : err read_bits_past_end ≡ err panic = rw (fits, past) at e in cc
    | inr enough ↦ read_loop-IsSafe n 0 r (rw (fits, enough) at e)
  ]
]

pub read_flag-IsSafe : IsSafe read_flag
unfolding read_flag
read_flag-IsSafe = bind-IsSafe read_bit-IsSafe (λ bit. pure-IsSafe _)

pub fail-IsSafe : {A : Type 0} (why : ParseError) → (why ≡ panic → ⊥) → IsSafe {A = A} (fail why)
fail-IsSafe why ne r e = ne (err-injective e)

ue_prefix-IsSafe : (left leading : ℕ) → IsSafe (ue_prefix left leading)
unfolding ue_prefix
ue_prefix-IsSafe zero leading = bind-IsSafe read_bit-IsSafe (λ bit. by_bit (bit == 0))
  where
    by_bit : (b : Bool) → IsSafe (elim b [ true ↦ fail prefix_too_long | false ↦ pure leading ])
    by_bit true = fail-IsSafe prefix_too_long (λ e. cc)
    by_bit false = pure-IsSafe leading
ue_prefix-IsSafe (suc left) leading =
    bind-IsSafe read_bit-IsSafe (λ bit. by_bit (ue_prefix-IsSafe left (leading + 1)) (bit == 0))
  where
    by_bit :
        IsSafe (ue_prefix left (leading + 1))
        → (b : Bool)
        → IsSafe (elim b [ true ↦ ue_prefix left (leading + 1) | false ↦ pure leading ])
    by_bit go true = go
    by_bit go false = pure-IsSafe leading

pub if-IsSafe :
    {A : Type 0} (b : Bool) (m n : M A) → IsSafe m → IsSafe n → IsSafe (if b then m else n)
if-IsSafe true m n f g = f
if-IsSafe false m n f g = g

pub ue-IsSafe : IsSafe ue
unfolding ue ue_suffix
ue-IsSafe = bind-IsSafe (ue_prefix-IsSafe 31 0) (λ leading.
    if-IsSafe (leading == 0) _ _ (pure-IsSafe 0)
      (bind-IsSafe (read_bits-IsSafe leading) (λ suffix. pure-IsSafe _)))

pub se-IsSafe : IsSafe se
unfolding se se_of
se-IsSafe = bind-IsSafe ue-IsSafe (λ k.
    if-IsSafe (leb (2 ^ 31) ((k + 1) / 2)) _ _ (fail-IsSafe se_out_of_range (λ e. cc))
      (pure-IsSafe _))

to_u8-IsSafe : (v : ℕ) → IsSafe (to_u8 v)
unfolding to_u8
to_u8-IsSafe v =
    if-IsSafe (leb 256 v) _ _ (fail-IsSafe field_out_of_range (λ e. cc)) (pure-IsSafe v)

scaling_loop-IsSafe : (n last next : ℕ) → IsSafe (scaling_loop n last next)
unfolding scaling_loop
scaling_loop-IsSafe zero last next = pure-IsSafe tt
scaling_loop-IsSafe (suc n) last next =
    by_next (next == 0) (scaling_loop-IsSafe n last 0) (λ delta. scaling_loop-IsSafe n _ _)
  where
    by_next :
        (b : Bool)
        → IsSafe (scaling_loop n last 0)
        → ((delta : ℤ)
            → IsSafe (
                scaling_loop n
                  (if next_scale_of last delta == 0 then last else next_scale_of last delta)
                  (next_scale_of last delta)))
        → IsSafe (elim b [
          | true ↦ scaling_loop n last 0
          | false ↦ se >>= λ delta.
              let next' = next_scale_of last delta in
              scaling_loop n (if next' == 0 then last else next') next'
        ])
    by_next true f g = f
    by_next false f g = bind-IsSafe se-IsSafe g

matrices_loop-IsSafe : (n i : ℕ) → IsSafe (matrices_loop n i)
unfolding matrices_loop consume_scaling_list
matrices_loop-IsSafe zero i = pure-IsSafe tt
matrices_loop-IsSafe (suc n) i = bind-IsSafe read_flag-IsSafe (λ present.
    bind-IsSafe
      (if-IsSafe present (scaling_loop (if ltb i 6 then 16 else 64) 8 8) (pure tt)
        (scaling_loop-IsSafe (if ltb i 6 then 16 else 64) 8 8) (pure-IsSafe tt))
      (λ done. matrices_loop-IsSafe n (i + 1)))

optional_flag-IsSafe : (b : Bool) → IsSafe (optional_flag b)
unfolding optional_flag
optional_flag-IsSafe true = read_flag-IsSafe
optional_flag-IsSafe false = pure-IsSafe false

pub optional_matrices-IsSafe : (b : Bool) (n : ℕ) → IsSafe (optional_matrices b n)
unfolding optional_matrices consume_scaling_matrices
optional_matrices-IsSafe true n = matrices_loop-IsSafe n 0
optional_matrices-IsSafe false n = pure-IsSafe tt

parse_chroma-IsSafe : (high : Bool) → IsSafe (parse_chroma high)
unfolding parse_chroma high_chroma
parse_chroma-IsSafe true = bind-IsSafe ue-IsSafe (λ format.
    bind-IsSafe (optional_flag-IsSafe (format == 3)) (λ separate. bind-IsSafe ue-IsSafe (λ luma.
      bind-IsSafe ue-IsSafe (λ chroma. bind-IsSafe read_flag-IsSafe (λ bypass.
        bind-IsSafe read_flag-IsSafe
          (λ scaling. bind-IsSafe (optional_matrices-IsSafe scaling _) (λ done. pure-IsSafe _)))))))
parse_chroma-IsSafe false = pure-IsSafe _

skip_se-IsSafe : (n : ℕ) → IsSafe (skip_se n)
unfolding skip_se
skip_se-IsSafe zero = pure-IsSafe tt
skip_se-IsSafe (suc n) = bind-IsSafe se-IsSafe (λ v. skip_se-IsSafe n)

order_of-IsSafe : (kind : ℕ) → IsSafe (order_of kind)
unfolding order_of cyclic_order
order_of-IsSafe zero = bind-IsSafe ue-IsSafe (λ lsb. pure-IsSafe _)
order_of-IsSafe (suc zero) = bind-IsSafe read_flag-IsSafe (λ always_zero.
    bind-IsSafe se-IsSafe (λ non_ref. bind-IsSafe se-IsSafe (λ top_to_bottom.
      bind-IsSafe ue-IsSafe (λ cycle. bind-IsSafe (skip_se-IsSafe cycle) (λ done. pure-IsSafe _)))))
order_of-IsSafe (suc (suc kind)) = pure-IsSafe _

crop_of-IsSafe : (b : Bool) → IsSafe (crop_of b)
unfolding crop_of
crop_of-IsSafe true = bind-IsSafe ue-IsSafe (λ left.
    bind-IsSafe ue-IsSafe
      (λ right. bind-IsSafe ue-IsSafe (λ top. bind-IsSafe ue-IsSafe (λ bottom. pure-IsSafe _))))
crop_of-IsSafe false = pure-IsSafe _

parse_order-IsSafe : IsSafe parse_order
unfolding parse_order
parse_order-IsSafe = bind-IsSafe ue-IsSafe order_of-IsSafe

parse_crop-IsSafe : IsSafe parse_crop
unfolding parse_crop
parse_crop-IsSafe = bind-IsSafe read_flag-IsSafe crop_of-IsSafe

pub parse_sps-IsSafe : IsSafe parse_sps
unfolding parse_sps frame_fields
parse_sps-IsSafe = bind-IsSafe (read_bits-IsSafe 8) (λ profile.
    bind-IsSafe (to_u8-IsSafe profile) (λ profile_idc.
      bind-IsSafe (read_bits-IsSafe 8) (λ constraints. bind-IsSafe (read_bits-IsSafe 8) (λ level.
        bind-IsSafe (to_u8-IsSafe level) (λ level_idc. bind-IsSafe ue-IsSafe (λ id.
          bind-IsSafe (parse_chroma-IsSafe (is_high profile_idc)) (λ chroma.
            bind-IsSafe ue-IsSafe (λ frame_num. bind-IsSafe parse_order-IsSafe (λ order.
              bind-IsSafe ue-IsSafe (λ refs. bind-IsSafe read_flag-IsSafe (λ gaps.
                bind-IsSafe ue-IsSafe (λ width. bind-IsSafe ue-IsSafe (λ height.
                  bind-IsSafe read_flag-IsSafe (λ only.
                    bind-IsSafe (optional_flag-IsSafe (not only)) (λ adaptive.
                      bind-IsSafe read_flag-IsSafe (λ direct.
                        bind-IsSafe parse_crop-IsSafe (λ crop. pure-IsSafe _)))))))))))))))))
