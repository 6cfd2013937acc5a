-- ===== src/Parser/BitReader/Bits.antt =====
-- The reader as a sequence of bits: `read_bit` takes the next one.
use vidcull.Prelude.{
  ℕ, zero, suc, ◌+◌, ◌-◌, ◌*◌, ◌/◌, ◌%◌, ◌^◌, ◌<◌, ◌≡◌, refl, sym, ap, ◌∙◌, Option, some, List, [],
  ◌∷◌, ◌++◌, arith, length, get_elem?, drop, length-drop, le→leb,
}
use mathlib.Core.Option.{some-injective}
use vidcull.Prelude.Result.{ok, err}
use vidcull.Parser.Error.{ParseError, read_past_end}
use vidcull.Parser.BitReader.{BitReader, M, ◌>>=◌, total_bits, bits_remaining, read_bit}

-- The bits of a byte, the highest first.
abbrev pub byte_bits : ℕ → List ℕ
byte_bits b =
    (b / 128 % 2)
    ∷ (b / 64 % 2)
    ∷ (b / 32 % 2)
    ∷ (b / 16 % 2)
    ∷ (b / 8 % 2)
    ∷ (b / 4 % 2)
    ∷ (b / 2 % 2)
    ∷ (b % 2)
    ∷ []

abbrev pub bits : List ℕ → List ℕ
bits [] = []
bits (b ∷ bs) = byte_bits b ++ bits bs

-- The bits that are not read yet.
abbrev pub rest : BitReader → List ℕ
rest r = drop r.pos (bits r.bytes)

-- The reader after n bits.
abbrev pub advance : BitReader → ℕ → BitReader
advance r n = record r { pos = r.pos + n }

abbrev pub bit_of : ℕ → ℕ → ℕ
bit_of byte i = byte / 2 ^ (7 - i) % 2

pub length-bits : (bytes : List ℕ) → length (bits bytes) ≡ length bytes * 8
length-bits [] = refl
length-bits (b ∷ bs) = omega (arith, length-bits bs)

same_byte :
    (b byte i : ℕ)
    → ◌≡◌ {A = Option ℕ} (some b) (some byte)
    → ◌≡◌ {A = Option ℕ} (some (bit_of b i)) (some (bit_of byte i))
same_byte b byte i h = ap (λ x. some (bit_of x i)) (some-injective b byte h)

pub get_elem?-bits :
    (bytes : List ℕ) (p byte : ℕ)
    → get_elem? bytes (p / 8) ≡ some byte
    → get_elem? (bits bytes) p ≡ some (bit_of byte (p % 8))
get_elem?-bits [] p byte h = cc
get_elem?-bits (b ∷ bs) zero byte h = same_byte b byte 0 h
get_elem?-bits (b ∷ bs) (suc zero) byte h = same_byte b byte 1 h
get_elem?-bits (b ∷ bs) (suc (suc zero)) byte h = same_byte b byte 2 h
get_elem?-bits (b ∷ bs) (suc (suc (suc zero))) byte h = same_byte b byte 3 h
get_elem?-bits (b ∷ bs) (suc (suc (suc (suc zero)))) byte h = same_byte b byte 4 h
get_elem?-bits (b ∷ bs) (suc (suc (suc (suc (suc zero))))) byte h = same_byte b byte 5 h
get_elem?-bits (b ∷ bs) (suc (suc (suc (suc (suc (suc zero)))))) byte h = same_byte b byte 6 h
get_elem?-bits (b ∷ bs) (suc (suc (suc (suc (suc (suc (suc zero))))))) byte h =
    ap some (let plain : b % 2 ≡ b / 1 % 2 = omega arith in plain) ∙ same_byte b byte 7 h
get_elem?-bits (b ∷ bs) (suc (suc (suc (suc (suc (suc (suc (suc p)))))))) byte h =
    let high : suc (suc (suc (suc (suc (suc (suc (suc p))))))) / 8 ≡ suc (p / 8) = omega arith in
    let low : suc (suc (suc (suc (suc (suc (suc (suc p))))))) % 8 ≡ p % 8 = omega arith in
    let h' : get_elem? bs (p / 8) ≡ some byte = rw high at h in rw low (get_elem?-bits bs p byte h')

get_elem?-some : (xs : List ℕ) (i : ℕ) → i < length xs → (x : ℕ) × (get_elem? xs i ≡ some x)
get_elem?-some [] i h = absurd (omega arith)
get_elem?-some (x ∷ xs) zero h = (x, refl)
get_elem?-some (x ∷ xs) (suc i) h = get_elem?-some xs i (omega arith)

drop-get_elem? : (xs : List ℕ) (i x : ℕ) → get_elem? xs i ≡ some x → drop i xs ≡ x ∷ drop (suc i) xs
drop-get_elem? [] i x h = cc
drop-get_elem? (y ∷ ys) zero x h = cc
drop-get_elem? (y ∷ ys) (suc i) x h = drop-get_elem? ys i x h

-- What the reader has left.
pub length-rest : (r : BitReader) → length (rest r) ≡ bits_remaining r
length-rest r = omega (arith, length-drop r.pos (bits r.bytes), length-bits r.bytes)

pub read_within :
    (r : BitReader)
    → r.pos < total_bits r
    → (b : ℕ) × (read_bit r ≡ ok (b, advance r 1)) × (rest r ≡ b ∷ rest (advance r 1))
unfolding read_bit
read_within r h =
    let (byte, at) = get_elem?-some r.bytes (r.pos / 8) (omega arith) in
    let tail : r.pos + 1 ≡ suc r.pos = omega arith in
    (
      bit_of byte (r.pos % 8),
      rw (at) (ground arith),
      drop-get_elem? (bits r.bytes) r.pos _ (get_elem?-bits r.bytes r.pos byte at)
          ∙ ap (λ i. bit_of byte (r.pos % 8) ∷ drop i (bits r.bytes)) (sym tail),
    )

-- `read_bit` returns the next bit, and leaves the others.
pub read_bit-rest :
    (r : BitReader) (b : ℕ) (bs : List ℕ)
    → rest r ≡ b ∷ bs
    → (read_bit r ≡ ok (b, advance r 1)) × (rest (advance r 1) ≡ bs)
read_bit-rest r b bs e =
    let (b', ran, split) = read_within r (omega (arith, length-rest r, ap length e)) in
    ground (arith, ran, split)

-- With no bit left it fails.
pub read_bit_end : (r : BitReader) → rest r ≡ [] → read_bit r ≡ err read_past_end
unfolding read_bit
read_bit_end r e = rw (le→leb (total_bits r) r.pos (omega (arith, length-rest r, ap length e)))

-- Running a bind whose first part succeeds, or fails.
pub bind_ok :
    {A B : Type 0} (m : M A) (f : A → M B) (r r' : BitReader) (a : A)
    → m r ≡ ok (a, r')
    → (m >>= f) r ≡ f a r'
bind_ok m f r r' a e = rw (e, ◌>>=◌)

pub bind_err :
    {A B : Type 0} (m : M A) (f : A → M B) (r : BitReader) (e : ParseError)
    → m r ≡ err e
    → (m >>= f) r ≡ err e
bind_err m f r e h = rw (h, ◌>>=◌)
