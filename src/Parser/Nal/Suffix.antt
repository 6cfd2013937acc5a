-- ===== src/Parser/Nal/Suffix.antt =====
-- The loop of `split_avcc` in crates/vidcull-parser/src/h264/nal.rs as a loop on the bytes that are left.
use vidcull.Prelude.{
  ℕ, zero, suc, ◌+◌, ◌≤◌, ◌<◌, ◌≡◌, refl, sym, ap, ◌∙◌, inl, inr, List, [], ◌∷◌, arith, leb, ltb,
  leb→le, leb→gt, ltb→ge, ◌-◌, ◌&&◌, length, true, false, if◌then◌else◌, length-drop, take, drop,
  Bool-cases,
}
use vidcull.Prelude.Result.{Result, ok, err}
use vidcull.Parser.Error.{ParseError, panic, length_past_buffer, nal_past_buffer}
use vidcull.Parser.Nal.{NalUnit, be_length, push_unit, range_of, avcc_loop}

-- The loop on the bytes from the position on, in which no access can be out of range.
unfoldable pub suffix_loop : ℕ → ℕ → List ℕ → Result ParseError (List NalUnit)
suffix_loop fuel length_size [] = ok []
suffix_loop zero length_size (x ∷ xs) = err panic
suffix_loop (suc fuel) length_size (x ∷ xs) =
    let rest = drop length_size (x ∷ xs) in
    let nal_len = be_length 0 (take length_size (x ∷ xs)) in
    let more = suffix_loop fuel length_size (drop nal_len rest) in
    if ltb (length (x ∷ xs)) length_size
    then err length_past_buffer
    else if ltb (length rest) nal_len
    then err nal_past_buffer
    else push_unit (take nal_len rest) more

unfoldable pub suffix_body : ℕ → ℕ → List ℕ → List ℕ → ℕ → Result ParseError (List NalUnit)
suffix_body fuel k xs rest n =
    if ltb (length xs) k
    then err length_past_buffer
    else if ltb (length rest) n
    then err nal_past_buffer
    else push_unit (take n rest) (suffix_loop fuel k (drop n rest))

pub suffix_loop_cons :
    (fuel k : ℕ) (xs : List ℕ)
    → 0 < length xs
    → suffix_loop (suc fuel) k xs ≡ suffix_body fuel k xs (drop k xs) (be_length 0 (take k xs))
unfolding suffix_loop suffix_body
suffix_loop_cons fuel k [] h = elim h [ ]
suffix_loop_cons fuel k (x ∷ xs) h = refl

pub suffix_loop_end : (fuel k : ℕ) → suffix_loop fuel k [] ≡ ok []
unfolding suffix_loop
suffix_loop_end zero k = refl
suffix_loop_end (suc fuel) k = refl

drop_past : (n : ℕ) (xs : List ℕ) → length xs ≤ n → drop n xs ≡ []
drop_past zero [] h = refl
drop_past (suc n) [] h = refl
drop_past zero (x ∷ xs) h = absurd (omega arith)
drop_past (suc n) (x ∷ xs) h = drop_past n xs (omega arith)

drop-drop : (m n : ℕ) (xs : List ℕ) → drop n (drop m xs) ≡ drop (m + n) xs
drop-drop zero n xs = ap (λ v. drop v xs) (omega arith)
drop-drop (suc m) n [] = drop_past n [] (omega arith) ∙ sym (drop_past (suc m + n) [] (omega arith))
drop-drop (suc m) n (x ∷ xs) =
    let next : suc (m + n) ≡ suc m + n = omega arith in
    drop-drop m n xs ∙ ap (λ v. drop v (x ∷ xs)) next

range_of-ok :
    (bytes : List ℕ) (from size : ℕ)
    → from + size ≤ length bytes
    → range_of bytes from (from + size) ≡ ok (take size (drop from bytes))
unfolding range_of
range_of-ok bytes from size h =
    let inside : (leb from (from + size) && leb (from + size) (length bytes)) ≡ true =
      ground arith in
    let count : from + size - from ≡ size = omega arith in rw (inside, count) refl

suffix_loop_empty : (k : ℕ) (xs : List ℕ) → 0 < length xs → suffix_loop 0 k xs ≡ err panic
unfolding suffix_loop
suffix_loop_empty k [] h = absurd (omega arith)
suffix_loop_empty k (x ∷ xs) h = refl

-- One turn, if the rest of the loop is on the bytes that are left.
avcc_turn :
    (fuel k : ℕ) (bytes : List ℕ) (pos : ℕ)
    → ((p : ℕ) → avcc_loop fuel k bytes p ≡ suffix_loop fuel k (drop p bytes))
    → leb (length bytes) pos ≡ false
    → avcc_loop (suc fuel) k bytes pos
      ≡ suffix_body fuel k
          (drop pos bytes)
          (drop k (drop pos bytes))
          (be_length 0 (take k (drop pos bytes)))
unfolding avcc_loop suffix_body
avcc_turn fuel k bytes pos ih e =
    let xs : List ℕ = drop pos bytes in
    let n : ℕ = be_length 0 (take k xs) in
    let left = length-drop pos bytes in
    let left' = length-drop k (drop pos bytes) in
    let more = leb→gt (length bytes) pos e in
    elim (Bool-cases (ltb (length bytes) (pos + k))) [
      | inl a ↦
          let short : ltb (length xs) k ≡ true = ground (arith, left, a, more) in
          rw (e, a, short) refl
      | inr a ↦
          let long : ltb (length xs) k ≡ false = ground (arith, left, a, more) in
          let room = ltb→ge (length bytes) (pos + k) a in
          let field = range_of-ok bytes pos k (omega (arith, room)) in
          elim (Bool-cases (ltb (length bytes) (pos + k + n))) [
            | inl b ↦
                let past : ltb (length (drop k xs)) n ≡ true =
                  ground (arith, left, left', b, room) in
                rw (e, a, field, b, long, past) refl
            | inr b ↦
                let fits : ltb (length (drop k xs)) n ≡ false =
                  ground (arith, left, left', b, room) in
                let raw =
                  range_of-ok bytes (pos + k) n
                    (omega (arith, ltb→ge (length bytes) (pos + k + n) b)) in
                let at : drop k xs ≡ drop (pos + k) bytes = drop-drop pos k bytes in
                let next : drop n (drop k xs) ≡ drop (pos + k + n) bytes =
                  ap (drop n) at ∙ drop-drop (pos + k) n bytes in
                let rest = ih (pos + k + n) ∙ ap (suffix_loop fuel k) (sym next) in
                rw (e, a, field, b, raw, long, fits)
                  (ap (λ v. push_unit (take n v) (avcc_loop fuel k bytes (pos + k + n))) (sym at)
                    ∙ ap (push_unit (take n (drop k xs))) rest)
          ]
    ]

-- Every access of the loop is in range, so that it is the loop on the bytes that are left.
pub avcc_loop-suffix_loop :
    (fuel k : ℕ) (bytes : List ℕ) (pos : ℕ)
    → avcc_loop fuel k bytes pos ≡ suffix_loop fuel k (drop pos bytes)
unfolding avcc_loop
avcc_loop-suffix_loop zero k bytes pos = elim (Bool-cases (leb (length bytes) pos)) [
  | inl e ↦ rw (e, drop_past pos bytes (leb→le (length bytes) pos e)) (sym (suffix_loop_end 0 k))
  | inr e ↦
      let left = length-drop pos bytes in
      let more = leb→gt (length bytes) pos e in
      rw e (sym (suffix_loop_empty k (drop pos bytes) (omega (arith, left, more))))
]
avcc_loop-suffix_loop (suc fuel) k bytes pos = elim (Bool-cases (leb (length bytes) pos)) [
  | inl e ↦
      rw (e, drop_past pos bytes (leb→le (length bytes) pos e)) (sym (suffix_loop_end (suc fuel) k))
  | inr e ↦
      let left = length-drop pos bytes in
      let more = leb→gt (length bytes) pos e in
      avcc_turn fuel k bytes pos (avcc_loop-suffix_loop fuel k bytes) e
      ∙ sym (suffix_loop_cons fuel k (drop pos bytes) (omega (arith, left, more)))
]
