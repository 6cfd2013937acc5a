-- ===== src/Parser/Params/Reads.antt =====
-- What a parser over the `BitReader` of crates/vidcull-parser/src/h264/bitstream.rs reads, and the parts
-- of a sequence parameter set as the bits of a writer.
use vidcull.Prelude.{
  ℕ, ◌+◌, ◌-◌, ◌^◌, ◌<◌, ◌≡◌, refl, sym, ap, ◌∙◌, Bool, true, false, List, [], ◌∷◌, ◌++◌, length,
  length-append, arith,
}
use vidcull.Prelude.Int.{ℤ}
use vidcull.Prelude.Result.{ok}
use vidcull.Parser.BitReader.{BitReader, M, pure, ◌>>=◌, read_bit, read_bits, read_flag, ue, se}
use vidcull.Parser.BitReader.Bits.{rest, advance, read_bit-rest, bind_ok, byte_bits}
use vidcull.Parser.BitReader.Fixed.{IsBits, value_of, read_bits-rest}
use vidcull.Parser.BitReader.Golomb.{encode_ue, ue-encode_ue, code_of, se-encode_ue}

-- With the bits of `code` in front, `m` returns the value and leaves what is behind them.
abbrev pub Reads : {A : Type 0} → M A → List ℕ → A → Type 0
Reads m code value =
    (more : List ℕ) (r : BitReader)
    → rest r ≡ code ++ more
    → (m r ≡ ok (value, advance r (length code))) × (rest (advance r (length code)) ≡ more)

append_assoc : (xs ys zs : List ℕ) → (xs ++ ys) ++ zs ≡ xs ++ (ys ++ zs)
append_assoc [] ys zs = refl
append_assoc (x ∷ xs) ys zs = ap (λ l. x ∷ l) (append_assoc xs ys zs)

pub pure-Reads : {A : Type 0} (a : A) → Reads (pure a) [] a
pure-Reads a more r e = let here : r.pos + 0 ≡ r.pos = omega arith in rw here (refl, e)

pub bind-Reads :
    {A B : Type 0} (m : M A) (k : A → M B) (xs ys : List ℕ) (a : A) (b : B)
    → Reads m xs a
    → Reads (k a) ys b
    → Reads (m >>= k) (xs ++ ys) b
bind-Reads m k xs ys a b f g more r e =
    let (ran, left) = f (ys ++ more) r (e ∙ append_assoc xs ys more) in
    let (ran', left') = g more (advance r (length xs)) left in
    let place : r.pos + length xs + length ys ≡ r.pos + length (xs ++ ys) =
      omega (arith, length-append xs ys) in
    (
      bind_ok m k r (advance r (length xs)) a ran
          ∙ ran'
          ∙ ap (λ p. ok (b, record r { pos = p })) place,
      ap (λ p. rest (record r { pos = p })) (sym place) ∙ left',
    )

-- A part that takes no bits.
pub silent-Reads :
    {A B : Type 0} (m : M A) (k : A → M B) (ys : List ℕ) (a : A) (b : B)
    → Reads m [] a
    → Reads (k a) ys b
    → Reads (m >>= k) ys b
silent-Reads m k ys a b f g = bind-Reads m k [] ys a b f g

pub ue-Reads : (v : ℕ) → v < 2 ^ 32 - 1 → Reads ue (encode_ue v) v
ue-Reads v h more r e = ue-encode_ue v more r h e

pub se-Reads : (v : ℤ) → code_of v < 2 ^ 32 - 1 → Reads se (encode_ue (code_of v)) v
se-Reads v h more r e = se-encode_ue v more r h e

pub encode_flag : Bool → List ℕ
encode_flag true = 1 ∷ []
encode_flag false = 0 ∷ []

pub flag-Reads : (b : Bool) → Reads read_flag (encode_flag b) b
unfolding encode_flag read_flag
flag-Reads true more r e =
    let (ran, left) = read_bit-rest r 1 more e in (bind_ok read_bit _ r (advance r 1) 1 ran, left)
flag-Reads false more r e =
    let (ran, left) = read_bit-rest r 0 more e in (bind_ok read_bit _ r (advance r 1) 0 ran, left)

byte_bits-value : (v : ℕ) → v < 256 → value_of 0 (byte_bits v) ≡ v
byte_bits-value v h = omega arith

pub encode_byte : ℕ → List ℕ
encode_byte v = byte_bits v

pub byte-Reads : (v : ℕ) → v < 256 → Reads (read_bits 8) (encode_byte v) v
unfolding encode_byte
byte-Reads v h more r e =
    let binary : IsBits (byte_bits v) = (
      omega arith,
      (
        omega arith,
        (
          omega arith,
          (omega arith, (omega arith, (omega arith, (omega arith, (omega arith, tt))))),
        ),
      ),
    ) in
    let (ran, left) = read_bits-rest (byte_bits v) more r e binary (omega arith) in
    (ran ∙ ap (λ x. ok (x, advance r 8)) (byte_bits-value v h), left)
