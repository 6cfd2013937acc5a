-- ===== src/Parser/BitReader/Fixed.antt =====
-- `read_bits` reads the next bits as a number, the highest first.
use vidcull.Prelude.{
  ℕ, suc, ◌+◌, ◌*◌, ◌%◌, ◌^◌, ◌≤◌, ◌<◌, ◌≡◌, refl, ap, ◌∙◌, List, [], ◌∷◌, ◌++◌, arith, length,
  ge→ltb, All, length-append,
}
use native.Mathlib.Nat.{add-zero, pow-suc, pow-le-pow_right}
use vidcull.Prelude.Result.{ok}
use vidcull.Parser.BitReader.{BitReader, bits_remaining, read_bit, read_loop, read_bits}
use vidcull.Parser.BitReader.Bits.{rest, advance, read_bit-rest, length-rest, bind_ok}

abbrev pub IsBits : List ℕ → Type 0
IsBits = All (λ b. b < 2)

-- The number that bits stand for, after `acc`.
abbrev pub value_of : ℕ → List ℕ → ℕ
value_of acc [] = acc
value_of acc (b ∷ bs) = value_of (acc * 2 + b) bs

grow : (k acc b : ℕ) → acc < 2 ^ k → b < 2 → acc * 2 + b < 2 ^ suc k
grow k acc b h t = omega (arith, pow-suc 2 k)

pub value_of-lt :
    (k acc : ℕ) (bs : List ℕ) → acc < 2 ^ k → IsBits bs → value_of acc bs < 2 ^ (k + length bs)
value_of-lt k acc [] h t = rw (add-zero k) h
value_of-lt k acc (b ∷ bs) h t =
    let shift : k + suc (length bs) ≡ suc k + length bs = omega arith in
    rw shift (value_of-lt (suc k) (acc * 2 + b) bs (grow k acc b h t.0) t.1)

-- The loop, while the value has room for the bits to come.
read_loop-rest :
    (bs more : List ℕ) (k acc : ℕ) (r : BitReader)
    → rest r ≡ bs ++ more
    → IsBits bs
    → acc < 2 ^ k
    → k + length bs ≤ 32
    → (read_loop (length bs) acc r ≡ ok (value_of acc bs, advance r (length bs)))
      × (rest (advance r (length bs)) ≡ more)
unfolding read_loop
read_loop-rest [] more k acc r e t h room =
    let here : r.pos + 0 ≡ r.pos = omega arith in rw here (refl, e)
read_loop-rest (b ∷ bs) more k acc r e t h room =
    let (ran, left) = read_bit-rest r b (bs ++ more) e in
    let small : 2 ^ k ≤ 2 ^ 31 = pow-le-pow_right (omega arith) {i = k} {j = 31} (omega arith) in
    let no_wrap : acc * 2 % 2 ^ 32 ≡ acc * 2 = omega arith in
    let shift : r.pos + suc (length bs) ≡ r.pos + 1 + length bs = omega arith in
    let (tail, end) =
      read_loop-rest bs more (suc k) (acc * 2 + b) (advance r 1) left t.1 (grow k acc b h t.0)
        (omega arith) in
    rw shift (
      bind_ok read_bit (λ bit. read_loop (length bs) (acc * 2 % 2 ^ 32 + bit)) r (advance r 1) b ran
          ∙ ap (λ v. read_loop (length bs) (v + b) (advance r 1)) no_wrap
          ∙ tail,
      end,
    )

-- With n bits in front, n up to 32, `read_bits n` returns the number that they stand for and
-- leaves the rest; the u32 does not overflow.
pub read_bits-rest :
    (bs more : List ℕ) (r : BitReader)
    → rest r ≡ bs ++ more
    → IsBits bs
    → length bs ≤ 32
    → (read_bits (length bs) r ≡ ok (value_of 0 bs, advance r (length bs)))
      × (rest (advance r (length bs)) ≡ more)
unfolding read_bits
read_bits-rest bs more r e t h =
    let enough : length bs ≤ bits_remaining r =
      omega (arith, length-rest r, ap length e, length-append bs more) in
    let (ran, left) = read_loop-rest bs more 0 0 r e t (omega arith) (omega arith) in
    (rw (ge→ltb 32 (length bs) h, ge→ltb (bits_remaining r) (length bs) enough) ran, left)
