-- ===== src/Hash/Runs.antt =====
-- The theorems on SipHasher, at concrete keys and hashes.
use xbtc.Base.{◌≡◌, some, ◌>>=◌}
use xbtc.Hash.{sip_hasher, finalize, hash_uint256}
use xbtc.Hash.Words.{update_words, hash_uint256-finalize}

hash_uint256-finalize_example :
    (update_words 12345 (sip_hasher 1 2) >>= λ h. some (finalize h)) ≡ some (hash_uint256 1 2 12345)
hash_uint256-finalize_example = hash_uint256-finalize 1 2 12345
