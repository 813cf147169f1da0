-- ===== src/Hash.antt =====
-- SipHasher of src/util/Hasher.cpp. A uint64_t is a number below 2 ^ 64, with its wrap-around written out.
pub mod Words
mod Runs
use xbtc.Base.{
  ℕ, zero, suc, ◌+◌, ◌-◌, ◌*◌, ◌/◌, ◌%◌, ◌^◌, Option, none, some, List, [], ◌∷◌, bit_or, bit_xor,
  ◌==◌, if◌then◌else◌,
}

abbrev add64 : ℕ → ℕ → ℕ
add64 a b = (a + b) % 2 ^ 64

unfoldable pub rotl : ℕ → ℕ → ℕ
rotl x b = bit_or (x * 2 ^ b % 2 ^ 64) (x / 2 ^ (64 - b))

-- v[0] to v[3].
pub record Words4 : Type 0 where
  pub v0 : ℕ
  pub v1 : ℕ
  pub v2 : ℕ
  pub v3 : ℕ

-- The macro SIPROUND, line by line.
unfoldable pub sip_round : Words4 → Words4
unfolding rotl
sip_round s =
    let a0 = add64 s.v0 s.v1 in
    let a1 = bit_xor (rotl s.v1 13) a0 in
    let b0 = rotl a0 32 in
    let a2 = add64 s.v2 s.v3 in
    let a3 = bit_xor (rotl s.v3 16) a2 in
    let c0 = add64 b0 a3 in
    let b3 = bit_xor (rotl a3 21) c0 in
    let b2 = add64 a2 a1 in
    let b1 = bit_xor (rotl a1 17) b2 in record { v0 = c0; v1 = b1; v2 = rotl b2 32; v3 = b3 }

pub record SipHasher : Type 0 where
  pub v : Words4
  pub tmp : ℕ
  pub count : ℕ

unfoldable pub sip_hasher : ℕ → ℕ → SipHasher
sip_hasher k0 k1 = record {
  v = record {
    v0 = bit_xor 0x736f6d6570736575 k0;
    v1 = bit_xor 0x646f72616e646f6d k1;
    v2 = bit_xor 0x6c7967656e657261 k0;
    v3 = bit_xor 0x7465646279746573 k1;
  };
  tmp = 0;
  count = 0;
}

-- The two rounds that take in a word.
unfoldable pub absorb : ℕ → Words4 → Words4
unfolding sip_round
absorb word s =
    let t = sip_round (sip_round (record s { v3 = bit_xor s.v3 word })) in
    record t { v0 = bit_xor t.v0 word }

-- update(uint64_t): `none` is the failed assertion that whole words came before. `count` is an int that
-- is taken not to overflow.
unfoldable pub update_word : ℕ → SipHasher → Option SipHasher
unfolding absorb
update_word word h =
    if h.count % 8 == 0 then some (record h { v = absorb word h.v; count = h.count + 8 }) else none

-- update(const uint8_t*, int): bytes gather in `tmp` until they are a word.
unfoldable pub update_bytes : List ℕ → SipHasher → SipHasher
unfolding absorb
update_bytes [] h = h
update_bytes (b ∷ bs) h =
    let t = bit_or h.tmp (b * 2 ^ (8 * (h.count % 8)) % 2 ^ 64) in
    update_bytes bs (
      if (h.count + 1) % 8 == 0
      then record { v = absorb t h.v; tmp = 0; count = h.count + 1 }
      else record h { tmp = t; count = h.count + 1 })

abbrev pub digest : Words4 → ℕ
digest s = bit_xor (bit_xor (bit_xor s.v0 s.v1) s.v2) s.v3

-- The last rounds of every hash.
unfoldable pub squeeze : Words4 → ℕ
unfolding sip_round
squeeze s =
    digest (sip_round (sip_round (sip_round (sip_round (record s { v2 = bit_xor s.v2 0xff })))))

unfoldable pub finalize : SipHasher → ℕ
unfolding absorb squeeze
finalize h = squeeze (absorb (bit_or h.tmp (h.count * 2 ^ 56 % 2 ^ 64)) h.v)

-- get_uint64(i) of a uint256.
abbrev pub get_uint64 : ℕ → ℕ → ℕ
get_uint64 val i = val / 2 ^ (64 * i) % 2 ^ 64

-- The start of hashUInt256 and of hashUInt256WithExtra: the four words of the hash.
unfoldable pub hash_words : ℕ → ℕ → ℕ → Words4
unfolding sip_round absorb
hash_words k0 k1 val =
    let d0 = get_uint64 val 0 in
    let s0 = sip_round (
      sip_round (record {
        v0 = bit_xor 0x736f6d6570736575 k0;
        v1 = bit_xor 0x646f72616e646f6d k1;
        v2 = bit_xor 0x6c7967656e657261 k0;
        v3 = bit_xor (bit_xor 0x7465646279746573 k1) d0;
      })) in
    let t0 = record s0 { v0 = bit_xor s0.v0 d0 } in
    absorb (get_uint64 val 3) (absorb (get_uint64 val 2) (absorb (get_uint64 val 1) t0))

unfoldable pub hash_uint256 : ℕ → ℕ → ℕ → ℕ
unfolding hash_words absorb squeeze
hash_uint256 k0 k1 val = squeeze (absorb (4 * 2 ^ 59 % 2 ^ 64) (hash_words k0 k1 val))

unfoldable pub hash_uint256_with_extra : ℕ → ℕ → ℕ → ℕ → ℕ
unfolding hash_words absorb squeeze
hash_uint256_with_extra k0 k1 val extra =
    squeeze (absorb (bit_or (36 * 2 ^ 56 % 2 ^ 64) extra) (hash_words k0 k1 val))
