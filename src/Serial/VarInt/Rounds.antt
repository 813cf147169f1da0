-- ===== src/Serial/VarInt/Rounds.antt =====
-- The rounds of writeInteger and of readInteger, and how they meet.
use xbtc.Base.{
  ℕ, zero, suc, ◌+◌, ◌-◌, ◌*◌, ◌/◌, ◌%◌, ◌≤◌, ◌<◌, ◌≡◌, ◌≢◌, sym, ◌∙◌, ap, Bool, true, false, some,
  List, [], ◌∷◌, ◌++◌, leb, if◌then◌else◌, bit_and, bit_or, arith, Bool-cases, inl, inr, leb→le,
  le→leb, lt→leb, le→ltb, ne→==, ◌⊎◌,
}
use xbtc.Base.Bits.{bit_and_mask, bit_and_bit, bit_or_disjoint}
use native.Mathlib.Nat.{mod-eq_of_lt}
use xbtc.Stream.{Streams, Reads-eq, little_endian}
use xbtc.Serial.{write_integer_loop, read_integer_loop}

-- The byte that is put for `val`, with the top bit set on all but the last.
abbrev pub group : ℕ → Bool → ℕ
group val ending = if ending then val % 128 else val % 128 + 128

pub group_lem :
    (val : ℕ) (ending : Bool)
    → (if ending then bit_and val 0x7f else bit_or (bit_and val 0x7f) 0x80) ≡ group val ending
group_lem val true = bit_and_mask 7 val
group_lem val false =
    ap (λ x. bit_or x 0x80) (bit_and_mask 7 val) ∙ bit_or_disjoint 7 (val % 128) 1 (omega arith)

pub write_last :
    (pos val : ℕ) (bs : List ℕ) (ending : Bool)
    → val ≤ 0x7f
    → write_integer_loop (suc pos) val bs ending ≡ some (group val ending ∷ bs)
unfolding write_integer_loop
write_last pos val bs ending h = rw (le→leb val 0x7f h, group_lem val ending)

pub write_more :
    (pos val : ℕ) (bs : List ℕ) (ending : Bool)
    → 0x7f < val
    → write_integer_loop (suc pos) val bs ending
      ≡ write_integer_loop pos (val / 128 - 1) (group val ending ∷ bs) false
unfolding write_integer_loop
write_more pos val bs ending h = rw (lt→leb val 0x7f h, group_lem val ending)

pub leb_split : (val : ℕ) → (val ≤ 0x7f) ⊎ (0x7f < val)
leb_split val = elim (Bool-cases (leb val 0x7f)) [
  | inl e ↦ inl (leb→le val 0x7f e)
  | inr e ↦ inr (ground arith)
]

pub high_bit : (byte : ℕ) → byte < 128 → bit_and (byte + 128) 0x80 ≡ 128
high_bit byte h = bit_and_bit 7 (byte + 128) ∙ omega arith

pub low_bits : (byte : ℕ) → byte < 128 → bit_and (byte + 128) 0x7f ≡ byte
low_bits byte h = bit_and_mask 7 (byte + 128) ∙ omega arith

pub no_high_bit : (byte : ℕ) → byte < 128 → bit_and byte 0x80 ≡ 0
no_high_bit byte h = bit_and_bit 7 byte ∙ omega arith

pub all_low_bits : (byte : ℕ) → byte < 128 → bit_and byte 0x7f ≡ byte
all_low_bits byte h = bit_and_mask 7 byte ∙ omega arith

module _ (xul : Streams) (max : ℕ) where
  open xul use {Input, bytes, read_uint, read_uint_lem}

  pub step_more :
      (fuel n byte v : ℕ) (s : Input) (rest : List ℕ)
      → 0 < fuel
      → n ≤ max / 128
      → byte < 128
      → v ≡ n * 128 + byte
      → v ≢ max
      → bytes s ≡ (byte + 128) ∷ rest
      → (g : ℕ) × (s' : Input) × (fuel ≡ g + 1)
        × (read_integer_loop xul fuel max n s ≡ read_integer_loop xul g max (v + 1) s')
        × (bytes s' ≡ rest)
  unfolding read_integer_loop little_endian
  step_more zero n byte v s rest pos hn hb hv ne e = elim pos [ ]
  step_more (suc fuel) n byte v s rest pos hn hb hv ne e =
      let (s', q, f) = Reads-eq xul (read_uint 1 s) (byte + 128) rest (
        read_uint_lem 1 (byte + 128) s rest (omega arith)
          (rw (mod-eq_of_lt {n = byte + 128} {m = 256} (omega arith)) e)) in
      (
        fuel,
        s',
        omega arith,
        rw (le→ltb (max / 128) n hn, q, high_bit byte hb, low_bits byte hb, ← hv, ne→== v max ne),
        f,
      )

  pub step_last :
      (fuel n byte v : ℕ) (s : Input) (rest : List ℕ)
      → 0 < fuel
      → n ≤ max / 128
      → byte < 128
      → v ≡ n * 128 + byte
      → bytes s ≡ byte ∷ rest
      → (s' : Input) × (read_integer_loop xul fuel max n s ≡ some (some (v, s')))
        × (bytes s' ≡ rest)
  unfolding read_integer_loop little_endian
  step_last zero n byte v s rest pos hn hb hv e = elim pos [ ]
  step_last (suc fuel) n byte v s rest pos hn hb hv e =
      let (s', q, f) = Reads-eq xul (read_uint 1 s) byte rest (
        read_uint_lem 1 byte s rest (omega arith)
          (rw (mod-eq_of_lt {n = byte} {m = 256} (omega arith)) e)) in
      (s', rw (le→ltb (max / 128) n hn, q, no_high_bit byte hb, all_low_bits byte hb, ← hv), f)

  -- Behind the bytes that the loop of `write_integer` puts before `bs`, the loop of `read_integer`
  -- stands at `bs`, and holds one more than `val`.
  pub read_prefix :
      (pos val fuel : ℕ) (bs out : List ℕ) (s : Input) (rest : List ℕ)
      → write_integer_loop pos val bs false ≡ some out
      → val < max
      → pos < fuel
      → bytes s ≡ out ++ rest
      → (g : ℕ) × (s' : Input) × (fuel ≤ g + pos)
        × (read_integer_loop xul fuel max 0 s ≡ read_integer_loop xul g max (val + 1) s')
        × (bytes s' ≡ bs ++ rest)
  read_prefix zero val fuel bs out s rest w lt enough e = unfold write_integer_loop in cc w
  read_prefix (suc pos) val fuel bs out s rest w lt enough e = elim (leb_split val) [
    | inl small ↦
        let (g, s', hg, q, f) =
          step_more fuel 0 val val s (bs ++ rest) (omega arith) (omega arith) (omega arith)
            (omega arith) (λ c. absurd (omega arith)) (e ∙ ap (λ x. x ++ rest) (first small)) in
        (g, s', omega arith, q, f)
    | inr large ↦
        let (g, s1, hg, q, f) =
          read_prefix pos (val / 128 - 1) fuel (group val false ∷ bs) out s rest
            (sym (write_more pos val bs false large) ∙ w) (omega arith) (omega arith) e in
        let (g', s2, hg', q', f') =
          step_more g (val / 128 - 1 + 1) (val % 128) val s1 (bs ++ rest) (omega arith)
            (omega arith) (omega arith) (omega arith) (λ c. absurd (omega arith)) f in
        (g', s2, omega arith, q ∙ q', f')
  ]
    where
      first : val ≤ 0x7f → out ≡ (val + 128) ∷ bs
      first small =
          cc (write_last pos val bs false small)
          ∙ ap (λ x. (x + 128) ∷ bs) (mod-eq_of_lt {n = val} {m = 128} (omega arith))

  -- From the start to the end of what one `write_integer` wrote.
  pub read_all :
      (pos val fuel : ℕ) (out : List ℕ) (s : Input) (rest : List ℕ)
      → write_integer_loop pos val [] true ≡ some out
      → val ≤ max
      → pos < fuel
      → bytes s ≡ out ++ rest
      → (s' : Input) × (read_integer_loop xul fuel max 0 s ≡ some (some (val, s')))
        × (bytes s' ≡ rest)
  read_all zero val fuel out s rest w le enough e = unfold write_integer_loop in cc w
  read_all (suc pos) val fuel out s rest w le enough e = elim (leb_split val) [
    | inl small ↦
        step_last fuel 0 val val s rest (omega arith) (omega arith) (omega arith) (omega arith)
          (e ∙ ap (λ x. x ++ rest) (first small))
    | inr large ↦
        let (g, s1, hg, q, f) =
          read_prefix pos (val / 128 - 1) fuel (group val true ∷ []) out s rest
            (sym (write_more pos val [] true large) ∙ w) (omega arith) (omega arith) e in
        let (s2, q', f') =
          step_last g (val / 128 - 1 + 1) (val % 128) val s1 rest (omega arith) (omega arith)
            (omega arith) (omega arith) f in
        (s2, q ∙ q', f')
  ]
    where
      first : val ≤ 0x7f → out ≡ val ∷ []
      first small =
          cc (write_last pos val [] true small)
          ∙ ap (λ x. x ∷ []) (mod-eq_of_lt {n = val} {m = 128} (omega arith))
