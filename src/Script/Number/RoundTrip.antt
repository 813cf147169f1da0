-- ===== src/Script/Number/RoundTrip.antt =====
-- decodeScriptNumber gives back what encodeScriptNumber wrote.
use xbtc.Base.{
  ℕ, suc, ◌+◌, ◌-◌, ◌*◌, ◌^◌, ◌≤◌, ◌<◌, ◌≡◌, ◌≢◌, refl, sym, ◌∙◌, ap, Bool, true, false, not, some,
  ◌>>=◌, List, [], ◌∷◌, ◌++◌, length, length-append, ◌==◌, ltb, bit_and, if◌then◌else◌, arith,
  Bool-cases, inl, inr, All, lt→ltb, le→ltb, ==_iff, ltb→lt, ltb→le,
}
use xbtc.Base.Int.{ℤ, pos, negsuc, magnitude, is_negative, signed}
use xbtc.Base.Bits.{bit_and_bit, bit_or_disjoint}
use native.Mathlib.Nat.{pow-le-pow_right}
use xbtc.Script.Number.{
  abs_bytes, last_byte, mark_negative, number_bytes, encode_script_number, decode_loop,
  decode_script_number,
}
use xbtc.Script.Number.Bytes.{
  value, IsByte, sign_suc, abs_bytes-value, decode_loop-value, value-append, last_byte-append,
  last_byte-small, value-lt, value-mark_negative, shift_seven, top_bit,
}

-- The first step of the decoder, on a string that is not empty.
decode_sum :
    (s : List ℕ) (n : ℕ)
    → All IsByte s
    → length s ≡ suc n
    → n < 8
    → decode_loop 0 0 s ≡ some (value s)
decode_sum s n w e h = decode_loop-value s 0 0 (omega arith) w (omega arith) ∙ ap some (omega arith)

-- A string whose last byte is below 128 stands for its value.
decode_positive :
    (b : ℕ) (bs : List ℕ)
    → All IsByte (b ∷ bs)
    → length bs < 8
    → last_byte (b ∷ bs) < 128
    → decode_script_number (b ∷ bs) ≡ some (pos (value (b ∷ bs)))
unfolding decode_script_number
decode_positive b bs w fits h =
    rw (decode_sum (b ∷ bs) (length bs) w refl fits, no_sign, lt→ltb _ (2 ^ 63) bound)
  where
    no_sign : bit_and (last_byte (b ∷ bs)) 0x80 ≡ 0
    no_sign = bit_and_bit 7 (last_byte (b ∷ bs)) ∙ omega arith

    bound : value (b ∷ bs) < 2 ^ 63
    bound = omega (
      arith,
      last_byte-small b bs w h,
      pow-le-pow_right {n = 2} (omega arith) {i = 8 * length bs + 7} {j = 63} (omega arith),
    )

-- One whose last byte is 128 or more, and that stands for `v` and the sign bit, is -v.
decode_negative :
    (b : ℕ) (bs : List ℕ) (v : ℕ)
    → All IsByte (b ∷ bs)
    → length bs < 8
    → 128 ≤ last_byte (b ∷ bs)
    → last_byte (b ∷ bs) < 256
    → v < 2 ^ (8 * length bs + 7)
    → value (b ∷ bs) ≡ v + 2 ^ (8 * length bs + 7)
    → decode_script_number (b ∷ bs) ≡ some (signed true v)
unfolding decode_script_number
decode_negative b bs v w fits lo hi small e =
    rw (decode_sum (b ∷ bs) (length bs) w refl fits, sign, le→ltb 8 (suc (length bs)) (omega arith))
      (ap (λ (x : ℕ). some (signed true x)) cleared)
  where
    sign : bit_and (last_byte (b ∷ bs)) 0x80 ≡ 128
    sign = bit_and_bit 7 (last_byte (b ∷ bs)) ∙ omega arith

    mask : 0x80 * 2 ^ (8 * (length (b ∷ bs) - 1)) ≡ 2 ^ (8 * length bs + 7)
    mask =
        ap (λ (n : ℕ). 0x80 * 2 ^ (8 * n)) {x = suc (length bs) - 1} (omega arith)
        ∙ sym (shift_seven (8 * length bs))

    top : bit_and (v + 2 ^ (8 * length bs + 7)) (2 ^ (8 * length bs + 7)) ≡ 2 ^ (8 * length bs + 7)
    top = top_bit (8 * length bs + 7) v small

    cleared : value (b ∷ bs) - bit_and (value (b ∷ bs)) (0x80 * 2 ^ (8 * (length (b ∷ bs) - 1))) ≡ v
    cleared = rw (mask, e, top) (omega arith)

-- The same for a string that is given otherwise.
decode_negative_of :
    (s : List ℕ) (n v : ℕ)
    → length s ≡ suc n
    → All IsByte s
    → n < 8
    → 128 ≤ last_byte s
    → last_byte s < 256
    → v < 2 ^ (8 * n + 7)
    → value s ≡ v + 2 ^ (8 * n + 7)
    → decode_script_number s ≡ some (signed true v)
decode_negative_of [] n v l w fits lo hi small e = absurd (omega arith)
decode_negative_of (b ∷ bs) n v l w fits lo hi small e =
    let same : n ≡ length bs = omega arith in
    decode_negative b bs v w (omega arith) lo hi (rw same at small) (rw same at e)

last_byte-IsByte : (b : ℕ) (bs : List ℕ) → All IsByte (b ∷ bs) → last_byte (b ∷ bs) < 256
unfolding last_byte
last_byte-IsByte b [] w = w.0
last_byte-IsByte b (c ∷ bs) (w, ws) = last_byte-IsByte c bs ws

last_byte-large :
    (b : ℕ) (bs : List ℕ) → 128 ≤ last_byte (b ∷ bs) → 2 ^ (8 * length bs + 7) ≤ value (b ∷ bs)
unfolding last_byte
last_byte-large b [] h = omega arith
last_byte-large b (c ∷ bs) h = omega (arith, last_byte-large c bs h, sign_suc (length bs))

All-snoc : (bs : List ℕ) (c : ℕ) → All IsByte bs → c < 256 → All IsByte (bs ++ c ∷ [])
All-snoc [] c w h = (h, tt)
All-snoc (b ∷ bs) c (w, ws) h = (w, All-snoc bs c ws h)

All-mark_negative :
    (b : ℕ) (bs : List ℕ)
    → All IsByte (b ∷ bs)
    → last_byte (b ∷ bs) < 128
    → All IsByte (mark_negative (b ∷ bs))
unfolding mark_negative last_byte
All-mark_negative b [] w h = (rw (bit_or_disjoint 7 b 1 h) (omega arith), tt)
All-mark_negative b (c ∷ bs) (w, ws) h = (w, All-mark_negative c bs ws h)

-- The two forms of a sign, on the bytes of a size.
module _ (b : ℕ) (bs : List ℕ) (w : All IsByte (b ∷ bs)) (fits : length bs < 8) where
  -- With a free top bit the sign is that bit.
  signed_in_place :
      (negative : Bool)
      → last_byte (b ∷ bs) < 128
      → decode_script_number (if negative then mark_negative (b ∷ bs) else b ∷ bs)
        ≡ some (signed negative (value (b ∷ bs)))
  signed_in_place false h = decode_positive b bs w fits h
  signed_in_place true h =
      let (v, l, n) = value-mark_negative b bs h in
      decode_negative_of (mark_negative (b ∷ bs)) (length bs) (value (b ∷ bs)) n
        (All-mark_negative b bs w h) fits (omega arith) (omega arith) (last_byte-small b bs w h) v

  -- Otherwise it has a byte of its own.
  signed_appended :
      (negative : Bool)
      → length bs < 7
      → decode_script_number ((b ∷ bs) ++ (if negative then 0x80 else 0) ∷ [])
        ≡ some (signed negative (value (b ∷ bs)))
  signed_appended false h =
      decode_positive b (bs ++ 0 ∷ []) (All-snoc (b ∷ bs) 0 w (omega arith))
        (omega (arith, length-append bs (0 ∷ []))) (rw (last_byte-append (b ∷ bs) 0) (omega arith))
      ∙ ap (λ (x : ℕ). some (pos x)) (value-append (b ∷ bs) 0 ∙ omega arith)
  signed_appended true h =
      let seven : 2 ^ (8 * suc (length bs) + 7) ≡ 128 * 2 ^ (8 * suc (length bs)) =
        shift_seven (8 * suc (length bs)) in
      let s : List ℕ = (b ∷ bs) ++ 0x80 ∷ [] in
      let last : last_byte s ≡ 0x80 = last_byte-append (b ∷ bs) 0x80 in
      decode_negative_of s (suc (length bs)) (value (b ∷ bs))
        (length-append (b ∷ bs) (0x80 ∷ []) ∙ omega arith) (All-snoc (b ∷ bs) 0x80 w (omega arith))
        (omega arith) (omega (arith, last)) (omega (arith, last))
        (omega (arith, value-lt (b ∷ bs) w, seven))
        (value-append (b ∷ bs) 0x80 ∙ ap (λ (x : ℕ). value (b ∷ bs) + x) (sym seven))

  decode_signed :
      (negative : Bool)
      → value (b ∷ bs) < 2 ^ 63
      → decode_script_number (
          if not (bit_and (last_byte (b ∷ bs)) 0x80 == 0)
          then (b ∷ bs) ++ (if negative then 0x80 else 0) ∷ []
          else if negative
          then mark_negative (b ∷ bs)
          else b ∷ bs)
        ≡ some (signed negative (value (b ∷ bs)))
  decode_signed negative small = elim (Bool-cases (ltb (last_byte (b ∷ bs)) 128)) [
    | inl free ↦
        let low : last_byte (b ∷ bs) < 128 = ltb→lt _ 128 free in
        let bit : bit_and (last_byte (b ∷ bs)) 0x80 ≡ 0 =
          bit_and_bit 7 (last_byte (b ∷ bs)) ∙ omega arith in
        rw bit (signed_in_place negative low)
    | inr taken ↦
        let high : 128 ≤ last_byte (b ∷ bs) = ltb→le _ 128 taken in
        let bit : bit_and (last_byte (b ∷ bs)) 0x80 ≡ 128 =
          bit_and_bit 7 (last_byte (b ∷ bs)) ∙ omega (arith, last_byte-IsByte b bs w) in
        rw bit (signed_appended negative (room high small))
  ]
    where
      room : 128 ≤ last_byte (b ∷ bs) → value (b ∷ bs) < 2 ^ 63 → length bs < 7
      room high less = elim (Bool-cases (ltb (length bs) 7)) [
        | inl e ↦ ltb→lt _ 7 e
        | inr e ↦ absurd (
            omega (
              arith,
              ltb→le _ 7 e,
              last_byte-large b bs high,
              ap (λ (n : ℕ). 2 ^ (8 * n + 7)) {x = length bs} {y = 7} (omega (arith, ltb→le _ 7 e)),
            ))
      ]

signed-magnitude : (val : ℤ) → signed (is_negative val) (magnitude val) ≡ val
signed-magnitude (pos n) = ap pos (omega arith)
signed-magnitude (negsuc n) = ground arith

zero-magnitude : (val : ℤ) → magnitude val ≡ 0 → pos 0 ≡ val
zero-magnitude (pos n) h = ground arith
zero-magnitude (negsuc n) h = absurd (omega arith)

decode_signed_of :
    (s : List ℕ) (negative : Bool) (v : ℕ)
    → value s ≡ v
    → v ≢ 0
    → All IsByte s
    → length s ≤ 8
    → v < 2 ^ 63
    → decode_script_number (
        if not (bit_and (last_byte s) 0x80 == 0)
        then s ++ (if negative then 0x80 else 0) ∷ []
        else if negative
        then mark_negative s
        else s)
      ≡ some (signed negative v)
decode_signed_of [] negative v e ne w fits h = absurd (ne (sym e))
decode_signed_of (b ∷ bs) negative v e ne w fits h =
    rw (← e) (decode_signed b bs w (omega arith) negative (omega arith))

pub decode_script_number-number_bytes :
    (val : ℤ) → magnitude val < 2 ^ 63 → decode_script_number (number_bytes val) ≡ some val
unfolding number_bytes
decode_script_number-number_bytes val h = elim (Bool-cases (magnitude val == 0)) [
  | inl zero_size ↦
      rw zero_size
        (unfold decode_script_number in ap some (zero-magnitude val ((==_iff _ 0).0 zero_size)))
  | inr some_size ↦
      let (v, n, w) = abs_bytes-value 8 (magnitude val) (omega arith) in
      rw some_size (
        decode_signed_of (abs_bytes 8 (magnitude val)) (is_negative val) (magnitude val) v
          (ground arith) w n h
        ∙ ap some (signed-magnitude val))
]

pub encode_script_number-fits :
    (val : ℤ) → magnitude val < 2 ^ 63 → encode_script_number val ≡ some (number_bytes val)
unfolding encode_script_number
encode_script_number-fits val h = rw (lt→ltb (magnitude val) (2 ^ 63) h) refl

-- Every integer of 64 bits but the least has an encoding as a script number, and is read back from
-- it.
pub decode_script_number-encode_script_number :
    (val : ℤ)
    → magnitude val < 2 ^ 63
    → (encode_script_number val >>= decode_script_number) ≡ some val
decode_script_number-encode_script_number val h =
    rw (encode_script_number-fits val h) (decode_script_number-number_bytes val h)
