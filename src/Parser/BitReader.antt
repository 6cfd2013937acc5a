-- ===== src/Parser/BitReader.antt =====
-- `BitReader` of crates/vidcull-parser/src/h264/bitstream.rs. A byte is a number; a method takes
-- the reader and returns a result with the reader after it. (After an error the caller gives the
-- reader up.) `usize` is unbounded: a buffer's bits can be counted.
pub mod Bits
pub mod Fixed
pub mod Golomb
pub mod Trailing
use package.vidcull.Prelude.{
  ℕ, zero, suc, ◌+◌, ◌-◌, ◌*◌, ◌/◌, ◌%◌, ◌^◌, Bool, true, false, Option, none, some, List, ltb, leb,
  ◌==◌, if◌then◌else◌, length, get_elem?,
}
use package.vidcull.Prelude.Int.{ℤ, pos, negsuc}
use package.vidcull.Prelude.Result.{Result, ok, err}
use package.vidcull.Parser.Error.{
  ParseError, panic, read_past_end, read_bits_over_32, read_bits_past_end, skip_past_end,
  prefix_too_long, se_out_of_range,
}

pub record BitReader : Type 0 where
  pub bytes : List ℕ
  pub pos : ℕ

abbrev pub new : List ℕ → BitReader
new rbsp = record { bytes = rbsp; pos = 0 }

abbrev pub total_bits : BitReader → ℕ
total_bits r = length r.bytes * 8

abbrev pub bits_remaining : BitReader → ℕ
bits_remaining r = total_bits r - r.pos

abbrev pub is_byte_aligned : BitReader → Bool
is_byte_aligned r = (r.pos % 8) == 0

-- A method that may fail.
abbrev pub M {ℓ} : Type ℓ → Type ℓ
M A = BitReader → Result ParseError (A × BitReader)

abbrev pub pure {ℓ} : {A : Type ℓ} → A → M A
pure a r = ok (a, r)

abbrev pub fail {ℓ} : {A : Type ℓ} → ParseError → M A
fail e r = err e

infixl 5 ◌>>=◌ ◌>>◌
abbrev pub ◌>>=◌ : {A B : Type 0} → M A → (A → M B) → M B
◌>>=◌ m f r = elim (m r) [ ok (a, r') ↦ f a r' | err e ↦ err e ]

abbrev pub ◌>>◌ : {A B : Type 0} → M A → M B → M B
m >> k = m >>= λ _. k

unfoldable pub read_bit : M ℕ
read_bit r =
    if leb (total_bits r) r.pos then err read_past_end else elim (get_elem? r.bytes (r.pos / 8)) [
      | none ↦ err panic
      | some byte ↦ ok (byte / 2 ^ (7 - r.pos % 8) % 2, record r { pos = r.pos + 1 })
    ]

-- `value = (value << 1) | bit` on a u32, n times.
unfoldable pub read_loop : ℕ → ℕ → M ℕ
read_loop zero value = pure value
read_loop (suc n) value = read_bit >>= λ bit. read_loop n (value * 2 % 2 ^ 32 + bit)

unfoldable pub read_bits : ℕ → M ℕ
read_bits n r =
    if ltb 32 n
    then err read_bits_over_32
    else if ltb (bits_remaining r) n
    then err read_bits_past_end
    else read_loop n 0 r

unfoldable pub read_flag : M Bool
read_flag = read_bit >>= λ bit. pure (bit == 1)

unfoldable pub skip_bits : ℕ → M (Unit {0})
skip_bits n r =
    if ltb (bits_remaining r) n then err skip_past_end else ok (tt, record r { pos = r.pos + n })

unfoldable pub align_to_byte : BitReader → BitReader
align_to_byte r = if (r.pos % 8) == 0 then r else record r { pos = r.pos + (8 - r.pos % 8) }

-- The `while` loop of `ue`: the zeros read, with `left` more allowed (31 at the start).
unfoldable pub ue_prefix : ℕ → ℕ → M ℕ
ue_prefix zero leading =
    read_bit >>= λ bit. elim (bit == 0) [ true ↦ fail prefix_too_long | false ↦ pure leading ]
ue_prefix (suc left) leading = read_bit >>= λ bit. elim (bit == 0) [
  | true ↦ ue_prefix left (leading + 1)
  | false ↦ pure leading
]

unfoldable pub ue_suffix : ℕ → M ℕ
ue_suffix leading =
    if leading == 0
    then pure 0
    else read_bits leading >>= λ suffix. pure ((2 ^ leading - 1 + suffix) % 2 ^ 32)

unfoldable pub ue : M ℕ
ue = ue_prefix 31 0 >>= ue_suffix

abbrev pub negate : ℕ → ℤ
negate zero = pos 0
negate (suc n) = negsuc n

-- The mapping of `se`, with the check of `i32::try_from`.
unfoldable pub se_of : ℕ → M ℤ
se_of k =
    let magnitude = (k + 1) / 2 in
    if leb (2 ^ 31) magnitude
    then fail se_out_of_range
    else pure (if (k % 2) == 1 then pos magnitude else negate magnitude)

unfoldable pub se : M ℤ
se = ue >>= se_of

-- `u8::trailing_zeros` of a byte that is not 0, by the bits that are left to look at.
unfoldable pub trailing_zeros : ℕ → ℕ → ℕ
trailing_zeros zero byte = 0
trailing_zeros (suc fuel) byte = if (byte % 2) == 1 then 0 else trailing_zeros fuel (byte / 2) + 1

-- The position of the last 1 in the first `count` bytes.
unfoldable pub last_one : List ℕ → ℕ → Option ℕ
last_one bytes zero = none
last_one bytes (suc byte_idx) =
    let before = last_one bytes byte_idx in
    elim (get_elem? bytes byte_idx) [
      | none ↦ before
      | some byte ↦ if byte == 0 then before else some (byte_idx * 8 + (7 - trailing_zeros 8 byte))
    ]

unfoldable pub more_rbsp_data : BitReader → Bool
unfolding last_one
more_rbsp_data r =
    if leb (total_bits r) r.pos
    then false
    else elim (last_one r.bytes (length r.bytes)) [ none ↦ false | some at ↦ ltb r.pos at ]
