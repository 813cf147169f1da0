-- ===== src/Coins/Commit.antt =====
-- transfer followed by flush: what a transaction does to the coins of the database.
use xbtc.Base.{ℕ, ◌≡◌, sym, ◌∙◌, ap, true, some, ◌>>=◌, leb}
use xbtc.Data.Transaction.{TransactionOutPoint, Transaction, is_coin_base}
use xbtc.Coins.{CoinView, transfer, heights_known, flush}
use xbtc.Coins.Unspent.{unspent, keep, IsSane}
use xbtc.Coins.Transfer.{IsFresh, IsApart, Accepts, applied, transfer-unspent}
use xbtc.Coins.Flush.{IsCached, flush-unspent}
use xbtc.Coins.Cache.{IsNew, transfer-IsCached}

-- When transfer of a transaction that the set of unspent coins accepts, as the theorem on transfer
-- asks for, is followed by a flush that is written, the coins of the database are the set that the
-- transaction makes: for a view as the theorems on transfer and on flush ask for, a transaction of
-- whose hash the database has no coin, and heights up to one above the best block's in the cache
-- that transfer leaves.
pub flush-transfer :
    (tx : Transaction) (height : ℕ) (v v' : CoinView)
    → IsSane v
    → IsCached v
    → IsFresh tx.hash v
    → IsNew tx.hash v.db
    → IsApart tx.hash tx.inputs
    → leb height v.best_block_height ≡ true
    → Accepts (is_coin_base tx) tx (unspent v)
    → transfer tx height v ≡ some v'
    → heights_known v'.best_block_height v'.added ≡ true
    → (v'' : CoinView) × (flush true v' ≡ some v'')
      × ((x : TransactionOutPoint) → (v''.db x >>= keep) ≡ applied tx height (unspent v) x)
flush-transfer tx height v v' sane cached fresh new apart h ok r heights =
    let (w, done, set) = transfer-unspent tx height v sane fresh apart h ok in
    let same : w ≡ v' = inject w v' (sym done ∙ r) in
    let (kept, db) = transfer-IsCached tx height v v' cached new r in
    let (v'', run, kept_set, says, no_added, no_removed) = flush-unspent v' kept heights in
    (v'', run, λ x. says x ∙ ap (λ u. unspent u x) (sym same) ∙ ap (λ u. u x) set)
  where
    inject : (a b : CoinView) → some a ≡ some b → a ≡ b
    inject a b e = cc
