-- ===== src/Parser/Params/Sequence.antt =====
-- A writer of sequence parameter sets, and `parse_sps` of crates/vidcull-parser/src/h264/params.rs on
-- what it writes.
use vidcull.Prelude.{
  ℕ, suc, ◌+◌, ◌-◌, ◌%◌, ◌^◌, ◌<◌, ◌≡◌, Bool, true, false, ◌&&◌, Option, none, some, List, [], ◌∷◌,
  ◌++◌, length, ◌==◌, if◌then◌else◌, All, arith,
}
use vidcull.Prelude.Int.{ℤ}
use vidcull.Parser.BitReader.{M, pure, read_flag, ue, se}
use vidcull.Parser.BitReader.Golomb.{encode_ue, code_of}
use vidcull.Parser.Params.{
  add_u32, optional_flag, optional_matrices, high_chroma, parse_chroma, skip_se, cyclic_order,
  order_of, parse_order, crop_of, parse_crop,
}
use vidcull.Parser.Params.Reads.{
  Reads, pure-Reads, bind-Reads, ue-Reads, se-Reads, encode_flag, flag-Reads,
}

-- The syntax elements in their order, also those that the parser skips; without scaling matrices.
pub record ChromaSyntax : Type 0 where
  pub format : ℕ
  pub separate : Bool
  pub luma_minus8 : ℕ
  pub chroma_minus8 : ℕ
  pub bypass : Bool

pub data OrderSyntax : Type 0 where
  -- type 0
  counted : ℕ → OrderSyntax
  -- type 1, with the offsets
  cyclic : Bool → ℤ → ℤ → List ℤ → OrderSyntax
  -- a type above 1, given less 2
  implied : ℕ → OrderSyntax

pub record CropSyntax : Type 0 where
  pub left : ℕ
  pub right : ℕ
  pub top : ℕ
  pub bottom : ℕ

-- A number that has an Exp-Golomb code in a u32.
abbrev pub Codes : ℕ → Type 0
Codes v = v < 2 ^ 32 - 1

abbrev pub CodesInt : ℤ → Type 0
CodesInt v = code_of v < 2 ^ 32 - 1

pub optional_flag-Reads :
    (b v : Bool) → Reads (optional_flag b) (if b then encode_flag v else []) (b && v)
unfolding optional_flag
optional_flag-Reads true v = flag-Reads v
optional_flag-Reads false v = pure-Reads false

pub encode_high : ChromaSyntax → List ℕ
encode_high c =
    encode_ue c.format
    ++ ((if c.format == 3 then encode_flag c.separate else [])
        ++ (encode_ue c.luma_minus8
            ++ (encode_ue c.chroma_minus8
                ++ (encode_flag c.bypass ++ (encode_flag false ++ ([] ++ []))))))

pub encode_chroma : Bool → ChromaSyntax → List ℕ
encode_chroma true c = encode_high c
encode_chroma false c = []

pub chroma_of : Bool → ChromaSyntax → ℕ × Bool × ℕ
chroma_of true c = (c.format, (c.format == 3) && c.separate, 8 + c.luma_minus8)
chroma_of false c = (1, false, 8)

pub record FitsChroma (c : ChromaSyntax) : Type 0 where
  pub format : Codes c.format
  pub luma : 8 + c.luma_minus8 < 2 ^ 32
  pub chroma : Codes c.chroma_minus8

luma_depth :
    (c : ChromaSyntax)
    → (8 + c.luma_minus8) % 2 ^ 32 ≡ 8 + c.luma_minus8
    → Reads {A = ℕ × Bool × ℕ}
        (pure (c.format, (c.format == 3) && c.separate, (8 + c.luma_minus8) % 2 ^ 32))
        []
        (c.format, (c.format == 3) && c.separate, 8 + c.luma_minus8)
luma_depth c e =
    rw e
      (pure-Reads {A = ℕ × Bool × ℕ} (c.format, (c.format == 3) && c.separate, 8 + c.luma_minus8))

high_chroma-Reads :
    (c : ChromaSyntax) → FitsChroma c → Reads high_chroma (encode_high c) (chroma_of true c)
unfolding high_chroma optional_matrices encode_high chroma_of
high_chroma-Reads c w =
    let luma : (8 + c.luma_minus8) % 2 ^ 32 ≡ 8 + c.luma_minus8 = omega (arith, w.luma) in
    let end : Unit {0} → M (ℕ × Bool × ℕ) =
      λ done. pure (c.format, (c.format == 3) && c.separate, add_u32 8 c.luma_minus8) in
    bind-Reads ue _ (encode_ue c.format) _ c.format _ (ue-Reads c.format w.format) (
      bind-Reads (optional_flag (c.format == 3)) _ _ _ ((c.format == 3) && c.separate) _
        (optional_flag-Reads (c.format == 3) c.separate)
        (bind-Reads ue _ (encode_ue c.luma_minus8) _ c.luma_minus8 _
          (ue-Reads c.luma_minus8 (omega (arith, w.luma)))
          (bind-Reads ue _ (encode_ue c.chroma_minus8) _ c.chroma_minus8 _
            (ue-Reads c.chroma_minus8 w.chroma)
            (bind-Reads read_flag _ (encode_flag c.bypass) _ c.bypass _ (flag-Reads c.bypass) (
              bind-Reads read_flag _ (encode_flag false) _ false _ (flag-Reads false)
                (bind-Reads (pure tt) end [] [] tt _ (pure-Reads tt) (luma_depth c luma)))))))

pub parse_chroma-Reads :
    (high : Bool) (c : ChromaSyntax)
    → FitsChroma c
    → Reads (parse_chroma high) (encode_chroma high c) (chroma_of high c)
unfolding parse_chroma encode_chroma chroma_of
parse_chroma-Reads true c w = high_chroma-Reads c w
parse_chroma-Reads false c w = plain
  where
    plain : Reads {A = ℕ × Bool × ℕ} (pure (1, false, 8)) [] (chroma_of false c)
    plain = pure-Reads {A = ℕ × Bool × ℕ} (1, false, 8)

encode_ses : List ℤ → List ℕ
encode_ses [] = []
encode_ses (v ∷ vs) = encode_ue (code_of v) ++ encode_ses vs

skip_se-Reads : (vs : List ℤ) → All CodesInt vs → Reads (skip_se (length vs)) (encode_ses vs) tt
unfolding skip_se encode_ses
skip_se-Reads [] h = pure-Reads tt
skip_se-Reads (v ∷ vs) h =
    bind-Reads se (λ x. skip_se (length vs)) (encode_ue (code_of v)) (encode_ses vs) v tt
      (se-Reads v h.0) (skip_se-Reads vs h.1)

abbrev kind_of : OrderSyntax → ℕ
kind_of (counted lsb) = 0
kind_of (cyclic always_zero non_ref top_to_bottom cycle) = 1
kind_of (implied kind) = suc (suc kind)

encode_tail : OrderSyntax → List ℕ
encode_tail (counted lsb) = encode_ue lsb ++ []
encode_tail (cyclic always_zero non_ref top_to_bottom cycle) =
    encode_flag always_zero
    ++ (encode_ue (code_of non_ref)
        ++ (encode_ue (code_of top_to_bottom)
            ++ (encode_ue (length cycle) ++ (encode_ses cycle ++ []))))
encode_tail (implied kind) = []

pub encode_order : OrderSyntax → List ℕ
encode_order o = encode_ue (kind_of o) ++ encode_tail o

pub order_meaning : OrderSyntax → ℕ × ℕ × Bool
order_meaning (counted lsb) = (0, 4 + lsb, false)
order_meaning (cyclic always_zero non_ref top_to_bottom cycle) = (1, 0, always_zero)
order_meaning (implied kind) = (suc (suc kind), 0, false)

abbrev pub FitsOrder : OrderSyntax → Type 0
FitsOrder (counted lsb) = 4 + lsb < 2 ^ 32
FitsOrder (cyclic always_zero non_ref top_to_bottom cycle) =
    CodesInt non_ref × CodesInt top_to_bottom × Codes (length cycle) × All CodesInt cycle
FitsOrder (implied kind) = Codes (suc (suc kind))

counted_end :
    (lsb : ℕ)
    → (4 + lsb) % 2 ^ 32 ≡ 4 + lsb
    → Reads {A = ℕ × ℕ × Bool} (pure (0, (4 + lsb) % 2 ^ 32, false)) [] (0, 4 + lsb, false)
counted_end lsb e = rw e (pure-Reads {A = ℕ × ℕ × Bool} (0, 4 + lsb, false))

order_of-Reads :
    (o : OrderSyntax) → FitsOrder o → Reads (order_of (kind_of o)) (encode_tail o) (order_meaning o)
unfolding order_of cyclic_order encode_tail order_meaning
order_of-Reads (counted lsb) h =
    let sum : (4 + lsb) % 2 ^ 32 ≡ 4 + lsb = omega arith in
    bind-Reads ue _ (encode_ue lsb) [] lsb _ (ue-Reads lsb (omega arith)) (counted_end lsb sum)
order_of-Reads (cyclic always_zero non_ref top_to_bottom cycle) (a, b, n, vs) =
    let end : Unit {0} → M (ℕ × ℕ × Bool) = λ done. pure (1, 0, always_zero) in
    bind-Reads read_flag _ (encode_flag always_zero) _ always_zero _ (flag-Reads always_zero) (
      bind-Reads se _ (encode_ue (code_of non_ref)) _ non_ref _ (se-Reads non_ref a) (
        bind-Reads se _ (encode_ue (code_of top_to_bottom)) _ top_to_bottom _
          (se-Reads top_to_bottom b)
          (bind-Reads ue _ (encode_ue (length cycle)) _ (length cycle) _ (ue-Reads (length cycle) n)
            (bind-Reads (skip_se (length cycle)) end (encode_ses cycle) [] tt _
              (skip_se-Reads cycle vs) (pure-Reads {A = ℕ × ℕ × Bool} (1, 0, always_zero))))))
order_of-Reads (implied kind) h = pure-Reads {A = ℕ × ℕ × Bool} (suc (suc kind), 0, false)

Codes-kind_of : (o : OrderSyntax) → FitsOrder o → Codes (kind_of o)
Codes-kind_of (counted lsb) h = omega arith
Codes-kind_of (cyclic always_zero non_ref top_to_bottom cycle) h = omega arith
Codes-kind_of (implied kind) h = h

pub parse_order-Reads :
    (o : OrderSyntax) → FitsOrder o → Reads parse_order (encode_order o) (order_meaning o)
unfolding parse_order encode_order
parse_order-Reads o h =
    bind-Reads ue order_of (encode_ue (kind_of o)) (encode_tail o) (kind_of o) _
      (ue-Reads (kind_of o) (Codes-kind_of o h)) (order_of-Reads o h)

pub encode_crop : Option CropSyntax → List ℕ
encode_crop none = encode_flag false ++ []
encode_crop (some c) =
    encode_flag true
    ++ (encode_ue c.left ++ (encode_ue c.right ++ (encode_ue c.top ++ (encode_ue c.bottom ++ []))))

pub crop_meaning : Option CropSyntax → ℕ × ℕ × ℕ × ℕ
crop_meaning none = (0, 0, 0, 0)
crop_meaning (some c) = (c.left, c.right, c.top, c.bottom)

abbrev pub FitsCrop : Option CropSyntax → Type 0
FitsCrop none = Unit
FitsCrop (some c) = Codes c.left × Codes c.right × Codes c.top × Codes c.bottom

pub parse_crop-Reads :
    (c : Option CropSyntax) → FitsCrop c → Reads parse_crop (encode_crop c) (crop_meaning c)
unfolding parse_crop crop_of encode_crop crop_meaning
parse_crop-Reads none h =
    bind-Reads read_flag crop_of (encode_flag false) [] false _ (flag-Reads false)
      (pure-Reads {A = ℕ × ℕ × ℕ × ℕ} (0, 0, 0, 0))
parse_crop-Reads (some c) (l, r, t, b) =
    bind-Reads read_flag crop_of (encode_flag true) _ true _ (flag-Reads true) (
      bind-Reads ue _ (encode_ue c.left) _ c.left _ (ue-Reads c.left l) (
        bind-Reads ue _ (encode_ue c.right) _ c.right _ (ue-Reads c.right r) (
          bind-Reads ue _ (encode_ue c.top) _ c.top _ (ue-Reads c.top t) (
            bind-Reads ue _ (encode_ue c.bottom) _ c.bottom _ (ue-Reads c.bottom b)
              (pure-Reads {A = ℕ × ℕ × ℕ × ℕ} (c.left, c.right, c.top, c.bottom))))))
