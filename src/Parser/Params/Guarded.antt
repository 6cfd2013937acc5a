-- ===== src/Parser/Params/Guarded.antt =====
-- Every index of `parse_avcc` in crates/vidcull-parser/src/h264/params.rs is guarded.
use vidcull.Prelude.{
  ℕ, zero, suc, ◌+◌, ◌-◌, ◌*◌, ◌%◌, ◌≤◌, ◌<◌, ◌≡◌, ◌≢◌, refl, ap, inl, inr, Bool, true, false, List,
  [], ◌∷◌, length, lt-get_elem?, take, drop, ltb, leb, ◌==◌, Bool-cases, ltb→ge, leb→gt, ge→ltb,
  if◌then◌else◌, arith,
}
use vidcull.Prelude.Result.{Result, ok, err, ◌>>=◌}
use vidcull.Parser.Error.{
  ParseError, panic, slice_groups, record_too_short, no_parameter_set, length_past_record,
  set_past_record, empty_parameter_set,
}
use vidcull.Parser.BitReader.{BitReader, M, new, more_rbsp_data}
use vidcull.Parser.Params.{
  Sps, add_u32, parse_sps, transform_fields, parse_transform, picture_fields, parse_pps,
}
use vidcull.Parser.Params.Record.{
  byte_at, slice, read_length_prefixed_nal, nal_rbsp, run_parser, skip_nals, behind_sets,
  parse_avcc,
}
use vidcull.Parser.Params.Total.{
  IsSafe, pure-IsSafe, bind-IsSafe, fail-IsSafe, if-IsSafe, read_bits-IsSafe, read_flag-IsSafe,
  ue-IsSafe, se-IsSafe, optional_matrices-IsSafe, err-injective, parse_sps-IsSafe,
}

transform_fields-IsSafe : (format : ℕ) → IsSafe (transform_fields format)
unfolding transform_fields
transform_fields-IsSafe format = bind-IsSafe read_flag-IsSafe (λ transform_8x8.
    bind-IsSafe read_flag-IsSafe (λ matrices.
      bind-IsSafe (optional_matrices-IsSafe matrices _)
        (λ done. bind-IsSafe se-IsSafe (λ second_offset. pure-IsSafe transform_8x8))))

parse_transform-IsSafe : (format : ℕ) → IsSafe (parse_transform format)
unfolding parse_transform
parse_transform-IsSafe format r e = elim (Bool-cases (more_rbsp_data r)) [
  | inl more ↦ transform_fields-IsSafe format r (rw more at e)
  | inr none_left ↦
      let e' : ◌≡◌ {A = Result ParseError (Bool × BitReader)} (ok (false, r)) (err panic) =
        rw none_left at e in
      cc
]

parse_pps-IsSafe : (format : ℕ) → IsSafe (parse_pps format)
unfolding parse_pps picture_fields
parse_pps-IsSafe format = bind-IsSafe ue-IsSafe (λ id. bind-IsSafe ue-IsSafe (λ set.
    bind-IsSafe read_flag-IsSafe (λ entropy. bind-IsSafe read_flag-IsSafe (λ bottom.
      bind-IsSafe ue-IsSafe (λ groups.
        if-IsSafe (ltb 1 (add_u32 groups 1)) _ _ (fail-IsSafe slice_groups (λ e. cc)) (
          bind-IsSafe ue-IsSafe (λ l0. bind-IsSafe ue-IsSafe (λ l1.
            bind-IsSafe read_flag-IsSafe (λ weighted. bind-IsSafe (read_bits-IsSafe 2) (λ bipred.
              bind-IsSafe se-IsSafe (λ qp. bind-IsSafe se-IsSafe (λ qs.
                bind-IsSafe se-IsSafe (λ offset. bind-IsSafe read_flag-IsSafe (λ deblocking.
                  bind-IsSafe read_flag-IsSafe (λ constrained.
                    bind-IsSafe read_flag-IsSafe (λ redundant.
                      bind-IsSafe (parse_transform-IsSafe format)
                        (λ transform. pure-IsSafe _)))))))))))))))))

-- No panic among results.
abbrev Guarded : {A : Type 0} → Result ParseError A → Type 0
Guarded x = x ≢ err panic

ok-Guarded : {A : Type 0} (a : A) → Guarded (ok a)
ok-Guarded a e = cc

err-Guarded : {A : Type 0} (why : ParseError) → (why ≡ panic → ⊥) → Guarded {A = A} (err why)
err-Guarded why ne e = ne (err-injective e)

-- The second part is run with what the first one gave.
bind-Guarded :
    {A B : Type 0} (x : Result ParseError A) (k : A → Result ParseError B)
    → Guarded x
    → ((a : A) → x ≡ ok a → Guarded (k a))
    → Guarded (x >>= k)
bind-Guarded (ok a) k safe next = next a refl
bind-Guarded (err why) k safe next = λ e. safe (ap err (err-injective e))

if-Guarded :
    {A : Type 0} (b : Bool) (x y : Result ParseError A)
    → Guarded x
    → (b ≡ false → Guarded y)
    → Guarded (if b then x else y)
if-Guarded true x y f g = f
if-Guarded false x y f g = g refl

byte_at-Guarded : (bytes : List ℕ) (i : ℕ) → i < length bytes → Guarded (byte_at bytes i)
unfolding byte_at
byte_at-Guarded bytes i h e =
    let (byte, at) = lt-get_elem? bytes i h in
    let e' : ok byte ≡ err panic = rw (at, byte_at) at e in cc

slice-Guarded :
    (bytes : List ℕ) (from to : ℕ) → from ≤ to → to ≤ length bytes → Guarded (slice bytes from to)
unfolding slice
slice-Guarded bytes from to h k e =
    let e' : ok (take (to - from) (drop from bytes)) ≡ err panic =
      rw (ge→ltb to from h, ge→ltb (length bytes) to k) at e in
    cc

nal-Guarded : (bytes : List ℕ) (at : ℕ) → Guarded (read_length_prefixed_nal bytes at)
unfolding read_length_prefixed_nal
nal-Guarded bytes at =
    if-Guarded (ltb (length bytes) (at + 2)) _ _ (err-Guarded length_past_record (λ e. cc)) (λ h.
      let room = ltb→ge (length bytes) (at + 2) h in
      bind-Guarded (byte_at bytes at) _ (byte_at-Guarded bytes at (omega arith)) (λ high e.
        bind-Guarded (byte_at bytes (at + 1)) _ (byte_at-Guarded bytes (at + 1) (omega arith))
          (λ low e'.
            if-Guarded (ltb (length bytes) (at + 2 + (high * 256 + low))) _ _
              (err-Guarded set_past_record (λ e. cc))
              (λ h'.
                let fits = ltb→ge (length bytes) (at + 2 + (high * 256 + low)) h' in
                bind-Guarded (slice bytes (at + 2) (at + 2 + (high * 256 + low))) _
                  (slice-Guarded bytes (at + 2) (at + 2 + (high * 256 + low)) (omega arith) fits)
                  (λ nal e''. ok-Guarded _)))))

nal_rbsp-Guarded : (nal : List ℕ) → Guarded (nal_rbsp nal)
unfolding nal_rbsp
nal_rbsp-Guarded [] = err-Guarded empty_parameter_set (λ e. cc)
nal_rbsp-Guarded (header ∷ ebsp) = ok-Guarded _

run_parser-Guarded : {A : Type 0} (m : M A) (rbsp : List ℕ) → IsSafe m → Guarded (run_parser m rbsp)
run_parser-Guarded m rbsp safe =
    bind-Guarded (m (new rbsp)) _ (safe (new rbsp)) (λ (a, r) e. ok-Guarded a)

skip_nals-Guarded : (n : ℕ) (bytes : List ℕ) (at : ℕ) → Guarded (skip_nals n bytes at)
unfolding skip_nals
skip_nals-Guarded zero bytes at = ok-Guarded at
skip_nals-Guarded (suc n) bytes at =
    bind-Guarded (read_length_prefixed_nal bytes at) _ (nal-Guarded bytes at)
      (λ (nal, next) e. skip_nals-Guarded n bytes next)

behind_sets-Guarded :
    (bytes : List ℕ) (size : ℕ) (sps : Sps) (at : ℕ) → Guarded (behind_sets bytes size sps at)
unfolding behind_sets
behind_sets-Guarded bytes size sps at =
    if-Guarded (leb (length bytes) at) _ _ (err-Guarded record_too_short (λ e. cc)) (λ h.
      bind-Guarded (byte_at bytes at) _ (byte_at-Guarded bytes at (leb→gt (length bytes) at h))
        (λ count e.
          if-Guarded (count == 0) _ _ (err-Guarded no_parameter_set (λ e. cc)) (λ some_sets.
            bind-Guarded (read_length_prefixed_nal bytes (at + 1)) _ (nal-Guarded bytes (at + 1))
              (λ (nal, next) e. bind-Guarded (nal_rbsp nal) _ (nal_rbsp-Guarded nal) (λ rbsp e.
                bind-Guarded (run_parser (parse_pps sps.chroma_format_idc) rbsp) _
                  (run_parser-Guarded (parse_pps sps.chroma_format_idc) rbsp
                    (parse_pps-IsSafe sps.chroma_format_idc))
                  (λ pps e. ok-Guarded _))))))

-- On any bytes `parse_avcc` gives a configuration or one of its errors: no index is out of range.
pub parse_avcc_guarded : (bytes : List ℕ) → parse_avcc bytes ≢ err panic
unfolding parse_avcc
parse_avcc_guarded bytes =
    if-Guarded (ltb (length bytes) 6) _ _ (err-Guarded record_too_short (λ e. cc)) (λ h.
      let long = ltb→ge (length bytes) 6 h in
      bind-Guarded (byte_at bytes 4) _ (byte_at-Guarded bytes 4 (omega arith)) (λ size e.
        bind-Guarded (byte_at bytes 5) _ (byte_at-Guarded bytes 5 (omega arith)) (λ counts e.
          if-Guarded ((counts % 32) == 0) _ _ (err-Guarded no_parameter_set (λ e. cc)) (λ some_sets.
            bind-Guarded (read_length_prefixed_nal bytes 6) _ (nal-Guarded bytes 6)
              (λ (nal, next) e. bind-Guarded (nal_rbsp nal) _ (nal_rbsp-Guarded nal) (λ rbsp e.
                bind-Guarded (run_parser parse_sps rbsp) _
                  (run_parser-Guarded parse_sps rbsp parse_sps-IsSafe)
                  (λ sps e.
                    bind-Guarded (skip_nals (counts % 32 - 1) bytes next) _
                      (skip_nals-Guarded (counts % 32 - 1) bytes next)
                      (λ at e. behind_sets-Guarded bytes size sps at))))))))
