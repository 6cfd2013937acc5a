-- ===== src/Parser/Nal/Avcc.antt =====
-- AVCC samples: `split_avcc` of crates/vidcull-parser/src/h264/nal.rs, and the writing of units.
use vidcull.Prelude.{
  ℕ, zero, suc, ◌+◌, ◌*◌, ◌/◌, ◌%◌, ◌^◌, ◌≤◌, ◌<◌, ◌≡◌, ◌≢◌, ◌⊎◌, refl, sym, ap, ◌∙◌, inl, inr,
  List, [], ◌∷◌, ◌++◌, arith, leb, ltb, ◌==◌, ◌&&◌, length, ge→ltb, All, true, false, length-append,
  length-drop, take, drop, Bool-cases,
}
use native.Mathlib.Nat.{pow-suc}
use vidcull.Prelude.Result.{Result, ok, err, Result-cases}
use vidcull.Parser.Error.{ParseError, panic, forbidden_zero_bit}
use vidcull.Parser.Nal.{
  NalUnitType, non_idr_slice, idr_slice, sei, sps, pps, access_unit_delimiter, other, from_raw,
  NalHeader, NalUnit, parse_nal_header, be_length, push_unit, split_avcc,
}
use vidcull.Parser.Nal.Suffix.{
  suffix_loop, suffix_body, suffix_loop_cons, suffix_loop_end, avcc_loop-suffix_loop,
}

take-append : (xs ys : List ℕ) → take (length xs) (xs ++ ys) ≡ xs
take-append [] ys = refl
take-append (x ∷ xs) ys = ap (λ t. x ∷ t) (take-append xs ys)

drop-append : (xs ys : List ℕ) → drop (length xs) (xs ++ ys) ≡ ys
drop-append [] ys = refl
drop-append (x ∷ xs) ys = drop-append xs ys

-- A number as big-endian bytes.
pub encode_be : ℕ → ℕ → List ℕ
encode_be zero n = []
encode_be (suc k) n = encode_be k (n / 256) ++ (n % 256 ∷ [])

length-encode_be : (k n : ℕ) → length (encode_be k n) ≡ k
unfolding encode_be
length-encode_be zero n = refl
length-encode_be (suc k) n =
    omega
      (arith, length-append (encode_be k (n / 256)) (n % 256 ∷ []), length-encode_be k (n / 256))

be_length-append :
    (acc b : ℕ) (xs : List ℕ) → be_length acc (xs ++ (b ∷ [])) ≡ be_length acc xs * 256 + b
unfolding be_length
be_length-append acc b [] = refl
be_length-append acc b (x ∷ xs) = be_length-append (acc * 256 + x) b xs

be_length-encode_be : (k n : ℕ) → n < 256 ^ k → be_length 0 (encode_be k n) ≡ n
unfolding be_length encode_be
be_length-encode_be zero n h = omega arith
be_length-encode_be (suc k) n h =
    let small : n / 256 < 256 ^ k = omega (arith, pow-suc 256 k) in
    let high = be_length-encode_be k (n / 256) small in
    be_length-append 0 (n % 256) (encode_be k (n / 256)) ∙ omega (arith, high)

-- One unit at the head of the buffer.
frame_lem :
    (fuel k : ℕ) (raw more : List ℕ)
    → 0 < k
    → length raw < 256 ^ k
    → suffix_loop (suc fuel) k (encode_be k (length raw) ++ (raw ++ more))
      ≡ push_unit raw (suffix_loop fuel k more)
unfolding suffix_body
frame_lem fuel k raw more pos_k short =
    let len = encode_be k (length raw) in
    let size : length len ≡ k = length-encode_be k (length raw) in
    let total = length-append len (raw ++ more) in
    let total' = length-append raw more in
    let head : take k (len ++ (raw ++ more)) ≡ len =
      ap (λ t. take t (len ++ (raw ++ more))) (sym size) ∙ take-append len (raw ++ more) in
    let tail : drop k (len ++ (raw ++ more)) ≡ raw ++ more =
      ap (λ t. drop t (len ++ (raw ++ more))) (sym size) ∙ drop-append len (raw ++ more) in
    let n : be_length 0 len ≡ length raw = be_length-encode_be k (length raw) short in
    let long : ltb (length (len ++ (raw ++ more))) k ≡ false = ge→ltb _ _ (omega arith) in
    let room : ltb (length (raw ++ more)) (length raw) ≡ false = ge→ltb _ _ (omega arith) in
    suffix_loop_cons fuel k (len ++ (raw ++ more)) (omega arith)
    ∙ rw (long, head, tail, n, room, take-append raw more, drop-append raw more)

-- The header byte of a unit, and the unit's bytes.
unfoldable pub to_raw : NalUnitType → ℕ
to_raw non_idr_slice = 1
to_raw idr_slice = 5
to_raw sei = 6
to_raw sps = 7
to_raw pps = 8
to_raw access_unit_delimiter = 9
to_raw (other raw) = raw

unfoldable pub encode_unit : NalUnit → List ℕ
unfolding to_raw
encode_unit u = (u.header.ref_idc * 32 + to_raw u.header.unit_type) ∷ u.payload

-- A header whose fields fit in their bits, with no code under `other` that has a name.
pub record IsHeader (h : NalHeader) : Type 0 where
  pub ref_small : h.ref_idc < 4
  pub type_small : to_raw h.unit_type < 32
  pub canonical : from_raw (to_raw h.unit_type) ≡ h.unit_type

parse_nal_header-encode :
    (h : NalHeader) → IsHeader h → parse_nal_header (h.ref_idc * 32 + to_raw h.unit_type) ≡ ok h
unfolding parse_nal_header
parse_nal_header-encode h w =
    let low = w.type_small in
    let high = w.ref_small in
    let clear : ((h.ref_idc * 32 + to_raw h.unit_type) / 128 == 0) ≡ true = ground arith in
    let ref : (h.ref_idc * 32 + to_raw h.unit_type) / 32 % 4 ≡ h.ref_idc = omega arith in
    let kind : (h.ref_idc * 32 + to_raw h.unit_type) % 32 ≡ to_raw h.unit_type = omega arith in
    rw (clear, ref, kind, w.canonical) refl

-- What a muxer writes: each unit after its length in `k` bytes.
pub encode_avcc : ℕ → List NalUnit → List ℕ
encode_avcc k [] = []
encode_avcc k (u ∷ us) = encode_be k (length (encode_unit u)) ++ (encode_unit u ++ encode_avcc k us)

pub record Fits (k : ℕ) (u : NalUnit) : Type 0 where
  pub header_ok : IsHeader u.header
  pub short : length (encode_unit u) < 256 ^ k

push_unit-encode :
    (u : NalUnit) (more : List NalUnit)
    → IsHeader u.header
    → push_unit (encode_unit u) (ok more) ≡ ok (u ∷ more)
unfolding push_unit encode_unit
push_unit-encode u more w = rw (parse_nal_header-encode u.header w) refl

suffix_loop-encode :
    (fuel k : ℕ) (us : List NalUnit)
    → 0 < k
    → All (Fits k) us
    → length us ≤ fuel
    → suffix_loop fuel k (encode_avcc k us) ≡ ok us
unfolding encode_avcc
suffix_loop-encode fuel k [] pos_k fits enough = suffix_loop_end fuel k
suffix_loop-encode zero k (u ∷ us) pos_k fits enough = absurd (omega arith)
suffix_loop-encode (suc fuel) k (u ∷ us) pos_k fits enough =
    frame_lem fuel k (encode_unit u) (encode_avcc k us) pos_k fits.0.short
    ∙ ap (push_unit (encode_unit u)) (suffix_loop-encode fuel k us pos_k fits.1 (omega arith))
    ∙ push_unit-encode u us fits.0.header_ok

length-encode_avcc : (k : ℕ) (us : List NalUnit) → length us ≤ length (encode_avcc k us)
unfolding encode_avcc encode_unit
length-encode_avcc k [] = omega arith
length-encode_avcc k (u ∷ us) =
    let total =
      length-append (encode_be k (length (encode_unit u))) (encode_unit u ++ encode_avcc k us) in
    let total' : length (encode_unit u ++ encode_avcc k us)
        ≡ suc (length u.payload) + length (encode_avcc k us) =
      length-append (encode_unit u) (encode_avcc k us) in
    omega (arith, length-encode_avcc k us)

-- For a length size of 1 to 4, `split_avcc` returns exactly the units that were written, in order,
-- if each header's fields fit in their bits and each unit's length fits in the length size.
pub split_avcc-encode_avcc :
    (k : ℕ) (us : List NalUnit)
    → 1 ≤ k
    → k ≤ 4
    → All (Fits k) us
    → split_avcc (encode_avcc k us) k ≡ ok us
unfolding split_avcc
split_avcc-encode_avcc k us low high fits =
    let range : (leb 1 k && leb k 4) ≡ true = ground arith in
    rw range (
      avcc_loop-suffix_loop (length (encode_avcc k us)) k (encode_avcc k us) 0
      ∙ suffix_loop-encode (length (encode_avcc k us)) k us low fits (length-encode_avcc k us))

parse_nal_header-cases :
    (b : ℕ)
    → ((h : NalHeader) × (parse_nal_header b ≡ ok h))
      ⊎ (parse_nal_header b ≡ err forbidden_zero_bit)
unfolding parse_nal_header
parse_nal_header-cases b = elim (Bool-cases (b / 128 == 0)) [
  | inl e ↦ inl (record { ref_idc = b / 32 % 4; unit_type = from_raw (b % 32) }, rw e refl)
  | inr e ↦ inr (rw e refl)
]

push_unit_returns :
    (raw : List ℕ) (more : Result ParseError (List NalUnit))
    → more ≢ err panic
    → push_unit raw more ≢ err panic
unfolding push_unit
push_unit_returns [] more h = h
push_unit_returns (b ∷ payload) more h = elim (parse_nal_header-cases b) [
  | inl (header, e) ↦ elim (Result-cases more) [
    | inl (us, k) ↦ rw (e, k) (λ t. cc)
    | inr (x, k) ↦ rw (e, k) (λ t. h (k ∙ t))
  ]
  | inr e ↦ rw e (λ t. cc)
]

suffix_loop_returns :
    (fuel k : ℕ) (xs : List ℕ) → 1 ≤ k → length xs ≤ fuel → suffix_loop fuel k xs ≢ err panic
unfolding suffix_loop
suffix_loop_returns zero k [] low enough = λ t. cc
suffix_loop_returns (suc fuel) k [] low enough = λ t. cc
suffix_loop_returns zero k (x ∷ xs) low enough = absurd (omega arith)
suffix_loop_returns (suc fuel) k (x ∷ xs) low enough =
    let n = be_length 0 (take k (x ∷ xs)) in
    let rest = drop k (x ∷ xs) in
    let shorter : length (drop n rest) ≤ fuel =
      omega (arith, length-drop n rest, length-drop k (x ∷ xs)) in
    let more =
      push_unit_returns (take n rest) (suffix_loop fuel k (drop n rest))
        (suffix_loop_returns fuel k (drop n rest) low shorter) in
    elim (Bool-cases (ltb (length (x ∷ xs)) k)) [
      | inl e ↦ rw e (λ t. cc)
      | inr e ↦ elim (Bool-cases (ltb (length rest) n)) [
        | inl f ↦ rw (e, f) (λ t. cc)
        | inr f ↦ rw (e, f) more
      ]
    ]

-- On any bytes and for any length size split_avcc gives units or one of its errors: the loop ends within
-- its fuel, and every range that it takes of the bytes lies in them.
pub split_avcc_returns : (bytes : List ℕ) (k : ℕ) → split_avcc bytes k ≢ err panic
unfolding split_avcc
split_avcc_returns bytes k = elim (Bool-cases (leb 1 k && leb k 4)) [
  | inl e ↦
      let same = avcc_loop-suffix_loop (length bytes) k bytes 0 in
      let returns = suffix_loop_returns (length bytes) k bytes (ground arith) (omega arith) in
      rw e (λ t. returns (sym same ∙ t))
  | inr e ↦ rw e (λ t. cc)
]
