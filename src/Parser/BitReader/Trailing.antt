-- ===== src/Parser/BitReader/Trailing.antt =====
-- `more_rbsp_data` of crates/vidcull-parser/src/h264/bitstream.rs and the bits of the buffer.
use vidcull.Prelude.{
  ℕ, zero, suc, ◌+◌, ◌-◌, ◌*◌, ◌/◌, ◌%◌, ◌^◌, ◌≤◌, ◌<◌, ◌≡◌, ◌≢◌, ◌↔◌, sym, ap, ◌∙◌, inl, inr, true,
  false, Option, none, some, List, [], ◌∷◌, ◌∈◌, arith, leb, ltb, ◌==◌, length, get_elem?, All,
  Bool-cases, ==→≡, ==→≢, ltb→lt, leb→le, ltb→ge, lt-get_elem?, All-mem, get_elem?-lt,
}
use mathlib.Core.Option.{some-injective}
use native.Mathlib.Nat.{pow-suc, zero-div, div-div-eq-div-mul}
use vidcull.Parser.BitReader.{BitReader, total_bits, trailing_zeros, last_one, more_rbsp_data}
use vidcull.Parser.BitReader.Bits.{bits, bit_of, get_elem?-bits, length-bits}

-- The lowest 1 of a number.
record Lowest (fuel byte t : ℕ) : Type 0 where
  small : t < fuel
  one : byte / 2 ^ t % 2 ≡ 1
  zeros : (k : ℕ) → k < t → byte / 2 ^ k % 2 ≡ 0

half : (byte t : ℕ) → byte / 2 / 2 ^ t ≡ byte / 2 ^ suc t
half byte t =
    let twice : 2 * 2 ^ t ≡ 2 ^ suc t = omega (arith, pow-suc 2 t) in
    div-div-eq-div-mul byte 2 (2 ^ t) ∙ ap (λ v. byte / v) twice

trailing_zeros-Lowest :
    (fuel byte : ℕ) → byte < 2 ^ fuel → byte ≢ 0 → Lowest fuel byte (trailing_zeros fuel byte)
unfolding trailing_zeros
trailing_zeros-Lowest zero byte h ne = absurd (ne (omega arith))
trailing_zeros-Lowest (suc fuel) byte h ne = elim (Bool-cases ((byte % 2) == 1)) [
  | inl e ↦ rw e (record {
    small = omega arith;
    one = omega (arith, ==→≡ (byte % 2) 1 e);
    zeros = λ k low. absurd (omega arith);
  })
  | inr e ↦
      let odd = ==→≢ (byte % 2) 1 e in
      let rest =
        trailing_zeros-Lowest fuel (byte / 2) (omega (arith, pow-suc 2 fuel))
          (λ z. ne (omega (arith, z, odd))) in
      rw e (again fuel byte (trailing_zeros fuel (byte / 2)) odd rest)
]
  where
    again :
        (fuel byte t : ℕ)
        → (byte % 2) ≢ 1
        → Lowest fuel (byte / 2) t
        → Lowest (suc fuel) byte (t + 1)
    again fuel byte t odd l = record {
      small = omega (arith, l.small);
      one = let shift : t + 1 ≡ suc t = omega arith in rw (shift, ← half byte t) l.one;
      zeros = λ k low. below k low;
    }
      where
        below : (k : ℕ) → k < t + 1 → byte / 2 ^ k % 2 ≡ 0
        below zero low = omega (arith, odd)
        below (suc k) low = rw (← half byte k) (l.zeros k (omega (arith, low)))

-- The last 1 of the first `count` bytes.
data LastOne (bytes : List ℕ) (count : ℕ) : Option ℕ → Type 0 where
  absent : ((j : ℕ) → j < count * 8 → get_elem? (bits bytes) j ≢ some 1) → LastOne bytes count none
  present :
      (at : ℕ)
      → at < count * 8
      → get_elem? (bits bytes) at ≡ some 1
      → ((j : ℕ) → at < j → j < count * 8 → get_elem? (bits bytes) j ≢ some 1)
      → LastOne bytes count (some at)

bit_at :
    (bytes : List ℕ) (i byte j : ℕ)
    → get_elem? bytes i ≡ some byte
    → j / 8 ≡ i
    → get_elem? (bits bytes) j ≡ some (bit_of byte (j % 8))
bit_at bytes i byte j e same = get_elem?-bits bytes j byte (rw same e)

zero_byte : (i : ℕ) → bit_of 0 i ≡ 0
zero_byte i = omega (arith, zero-div (2 ^ (7 - i)))

not_one : (o : Option ℕ) (b : ℕ) → o ≡ some b → b ≡ 0 → o ≢ some 1
not_one o b e z h = absurd (omega (arith, z, some-injective _ _ (sym e ∙ h)))

-- One byte more, in which there is no 1.
widen :
    (bytes : List ℕ) (n : ℕ) (o : Option ℕ)
    → LastOne bytes n o
    → ((j : ℕ) → n * 8 ≤ j → j < suc n * 8 → get_elem? (bits bytes) j ≢ some 1)
    → LastOne bytes (suc n) o
widen bytes n none (absent f) g = absent (λ j low. elim (Bool-cases (ltb j (n * 8))) [
  | inl e ↦ f j (ltb→lt j (n * 8) e)
  | inr e ↦ g j (ltb→ge j (n * 8) e) low
])
widen bytes n (some last) (present at low one f) g = present at (omega arith) one (λ j above below.
    elim (Bool-cases (ltb j (n * 8))) [
      | inl e ↦ f j above (ltb→lt j (n * 8) e)
      | inr e ↦ g j (ltb→ge j (n * 8) e) below
    ])

-- A byte that is not 0 has the last 1 so far.
last_in_byte :
    (bytes : List ℕ) (n byte t : ℕ)
    → get_elem? bytes n ≡ some byte
    → Lowest 8 byte t
    → LastOne bytes (suc n) (some (n * 8 + (7 - t)))
last_in_byte bytes n byte t e l =
    let t_small = l.small in
    let at = n * 8 + (7 - t) in
    let in_byte : at / 8 ≡ n = omega arith in
    let place : 7 - at % 8 ≡ t = omega arith in
    let is_one : bit_of byte (at % 8) ≡ 1 = rw place l.one in
    present at (omega arith) (bit_at bytes n byte at e in_byte ∙ ap some is_one) (λ j above below.
      let in_byte' : j / 8 ≡ n = omega arith in
      let k_small : 7 - j % 8 < t = omega arith in
      not_one (get_elem? (bits bytes) j) (bit_of byte (j % 8)) (bit_at bytes n byte j e in_byte')
        (l.zeros (7 - j % 8) k_small))

get_elem?-mem : (xs : List ℕ) (i x : ℕ) → get_elem? xs i ≡ some x → x ∈ xs
get_elem?-mem [] i x h = cc
get_elem?-mem (y ∷ xs) zero x h = inl (some-injective _ _ (sym h))
get_elem?-mem (y ∷ xs) (suc i) x h = inr (get_elem?-mem xs i x h)

last_one-LastOne :
    (bytes : List ℕ) (n : ℕ)
    → All (λ b. b < 256) bytes
    → n ≤ length bytes
    → LastOne bytes n (last_one bytes n)
unfolding last_one
last_one-LastOne bytes zero small h = absent (λ j low. absurd (omega arith))
last_one-LastOne bytes (suc n) small h =
    let (byte, e) = lt-get_elem? bytes n (omega arith) in
    let before = last_one-LastOne bytes n small (omega arith) in
    let byte_small : byte < 2 ^ 8 =
      omega (arith, All-mem (λ b. b < 256) bytes byte small (get_elem?-mem bytes n byte e)) in
    elim (Bool-cases (byte == 0)) [
      | inl z ↦
          rw (e, last_one, z)
            (widen bytes n (last_one bytes n) before (λ j low high.
              let in_byte : j / 8 ≡ n = omega arith in
              not_one (get_elem? (bits bytes) j) (bit_of byte (j % 8))
                (bit_at bytes n byte j e in_byte) (rw (==→≡ byte 0 z) (zero_byte (j % 8)))))
      | inr z ↦
          rw (e, last_one, z)
            (last_in_byte bytes n byte (trailing_zeros 8 byte) e
              (trailing_zeros-Lowest 8 byte byte_small (==→≢ byte 0 z)))
    ]

one_lt : (bytes : List ℕ) (j : ℕ) → get_elem? (bits bytes) j ≡ some 1 → j < length bytes * 8
one_lt bytes j h = omega (arith, get_elem?-lt (bits bytes) j 1 h, length-bits bytes)

found_iff :
    (bytes : List ℕ) (pos : ℕ) (o : Option ℕ)
    → LastOne bytes (length bytes) o
    → (elim o [ none ↦ false | some at ↦ ltb pos at ] ≡ true)
      ↔ ((j : ℕ) × (pos < j) × (get_elem? (bits bytes) j ≡ some 1))
found_iff bytes pos none (absent f) =
    (λ h. cc, λ (j, low, one). absurd (f j (one_lt bytes j one) one))
found_iff bytes pos (some last) (present at low one f) = (
  λ h. (at, ltb→lt pos at h, one),
  λ (j, later, is_one). elim (Bool-cases (ltb pos at)) [
    | inl e ↦ e
    | inr e ↦ absurd (f j (omega (arith, ltb→ge pos at e)) (one_lt bytes j is_one) is_one)
  ],
)

-- On bytes, `more_rbsp_data` answers true exactly if there is a 1 strictly behind the position.
pub more_rbsp_data_iff :
    (r : BitReader)
    → All (λ b. b < 256) r.bytes
    → (more_rbsp_data r ≡ true) ↔ ((j : ℕ) × (r.pos < j) × (get_elem? (bits r.bytes) j ≡ some 1))
unfolding more_rbsp_data
more_rbsp_data_iff r small = elim (Bool-cases (leb (total_bits r) r.pos)) [
  | inl e ↦ rw e (
    λ h. cc,
    λ (j, later, one). absurd (omega (arith, leb→le (total_bits r) r.pos e, one_lt r.bytes j one)),
  )
  | inr e ↦ rw e (
      found_iff r.bytes r.pos (last_one r.bytes (length r.bytes))
        (last_one-LastOne r.bytes (length r.bytes) small (omega arith)))
]
