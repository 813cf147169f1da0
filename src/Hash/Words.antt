-- ===== src/Hash/Words.antt =====
-- The functions of SipHasher that are specialised to a uint256, against the general hasher.
use xbtc.Base.{
  ℕ, ◌∙◌, zero, suc, ◌+◌, ◌*◌, ◌/◌, ◌≤◌, false, ◌==◌, ap, bit_or, ne→==, ◌%◌, ◌^◌, ◌<◌, ◌≡◌, refl,
  Option, some, ◌>>=◌, arith,
}
use xbtc.Stream.{little_endian}
use native.Mathlib.Nat.{pow-suc, pow-le-pow_right, mod-eq_of_lt}
use xbtc.Base.Bits.{bit_or_disjoint, pow_pos, byte_below, byte_shift, bit_or_comm}
use xbtc.Hash.{
  Words4, absorb, squeeze, hash_words, SipHasher, sip_hasher, update_word, update_bytes, finalize,
  get_uint64, hash_uint256, hash_uint256_with_extra, Words4,
}

-- The words of a uint256, one after the other.
pub update_words : ℕ → SipHasher → Option SipHasher
update_words val h = do
  h0 ← update_word (get_uint64 val 0) h
  h1 ← update_word (get_uint64 val 1) h0
  h2 ← update_word (get_uint64 val 2) h1
  update_word (get_uint64 val 3) h2

-- hashUInt256 is what a SipHasher with the same keys makes of the four words of the uint256.
pub hash_uint256-finalize :
    (k0 k1 val : ℕ)
    → (update_words val (sip_hasher k0 k1) >>= λ h. some (finalize h))
      ≡ some (hash_uint256 k0 k1 val)
unfolding update_words update_word sip_hasher finalize hash_uint256
hash_uint256-finalize k0 k1 val = refl

-- Bytes that do not fill a word add up in `tmp`.
update_bytes-little_endian :
    (k w j : ℕ) (v : Words4) (tmp count : ℕ)
    → count % 8 ≡ j
    → j + k < 8
    → tmp < 2 ^ (8 * j)
    → w < 256 ^ k
    → update_bytes (little_endian k w) (record { v = v; tmp = tmp; count = count })
      ≡ record { v = v; tmp = tmp + w * 2 ^ (8 * j); count = count + k }
unfolding update_bytes little_endian
update_bytes-little_endian zero w j v tmp count e fits small lt =
    let none_left : w ≡ 0 = omega arith in
    let same : tmp ≡ tmp + w * 2 ^ (8 * j) = rw none_left (omega arith) in
    let still : count ≡ count + 0 = omega arith in rw (← same, ← still) refl
update_bytes-little_endian (suc k) w j v tmp count e fits small lt =
    let open_word : ((count + 1) % 8 == 0) ≡ false =
      ne→== ((count + 1) % 8) 0 (λ z. absurd (omega arith)) in
    let below : w % 256 * 2 ^ (8 * j) + 2 ^ (8 * j) ≤ 2 ^ (8 * (j + 1)) =
      byte_below (w % 256) j (omega arith) in
    let word : 2 ^ (8 * (j + 1)) ≤ 2 ^ 64 =
      pow-le-pow_right {n = 2} (omega arith) {i = 8 * (j + 1)} {j = 64} (omega arith) in
    let fit : w % 256 * 2 ^ (8 * j) % 2 ^ 64 ≡ w % 256 * 2 ^ (8 * j) =
      mod-eq_of_lt (omega (arith, below, word, pow_pos (8 * j))) in
    let sum : bit_or tmp (w % 256 * 2 ^ (8 * j)) ≡ tmp + w % 256 * 2 ^ (8 * j) =
      bit_or_disjoint (8 * j) tmp (w % 256) small in
    let rest =
      update_bytes-little_endian k (w / 256) (j + 1) v (tmp + w % 256 * 2 ^ (8 * j)) (count + 1)
        (omega arith) (omega arith) (omega (arith, below, small)) (omega (arith, pow-suc 256 k)) in
    let parts : w ≡ w % 256 + 256 * (w / 256) = omega arith in
    let total : tmp + w % 256 * 2 ^ (8 * j) + w / 256 * 2 ^ (8 * (j + 1)) ≡ tmp + w * 2 ^ (8 * j) =
      omega (
        arith,
        ap (λ (m : ℕ). w / 256 * m) (byte_shift j),
        ap (λ (m : ℕ). m * 2 ^ (8 * j)) parts,
      ) in
    let size : count + 1 + k ≡ count + suc k = omega arith in
    rw (e, open_word, fit, sum, rest, update_bytes) (rw (total, size) refl)

-- hashUInt256WithExtra is what a SipHasher with the same keys makes of the words of the uint256
-- and then of the four bytes of the extra number, for a number of 32 bits.
pub hash_uint256_with_extra-finalize :
    (k0 k1 val extra : ℕ)
    → extra < 2 ^ 32
    → (update_words val (sip_hasher k0 k1) >>= λ h.
        some (finalize (update_bytes (little_endian 4 extra) h)))
      ≡ some (hash_uint256_with_extra k0 k1 val extra)
unfolding update_words update_word sip_hasher finalize hash_uint256_with_extra hash_words
hash_uint256_with_extra-finalize k0 k1 val extra lt =
    let V = hash_words k0 k1 val in
    let gathered =
      update_bytes-little_endian 4 extra 0 V 0 32 refl (omega arith) (omega arith) (omega arith) in
    let swapped : bit_or (0 + extra * 2 ^ (8 * 0)) (36 * 2 ^ 56 % 2 ^ 64)
        ≡ bit_or (36 * 2 ^ 56 % 2 ^ 64) extra =
      bit_or_comm (0 + extra * 2 ^ (8 * 0)) (36 * 2 ^ 56 % 2 ^ 64)
      ∙ ap (bit_or (36 * 2 ^ 56 % 2 ^ 64)) (omega arith) in
    ap (λ h. some (finalize h)) gathered ∙ ap (λ t. some (squeeze (absorb t V))) swapped
