-- ===== src/Coins/Cache.antt =====
-- The cache of a view stays in the form that flush asks for, whatever transfer does to it.
use xbtc.Base.{
  some-pair_right, ◌||◌, ◌==◌, ℕ, suc, ◌≡◌, refl, sym, ◌∙◌, ap, Bool, true, false, ◌&&◌, Option,
  none, some, ◌>>=◌, List, [], ◌∷◌, leb, Bool-cases, Option-cases, inl, inr, none-ne-some, subst,
}
use xbtc.Base.Int.{ℤ, pos}
use xbtc.Data.Transaction.{
  TransactionOutPoint, TransactionInput, TransactionOutput, Transaction, is_coin_base,
}
use xbtc.Data.Coin.{Coin, null_coin}
use xbtc.Coins.Lookup.{
  Table, find, erase, insert, find-erase, find-insert, eq_out, eq_out-eq, eq_out_refl,
}
use xbtc.Coins.{
  CoinEntry, CoinView, Db, positive, is_some, cache, int64_of, add_int64, fetch_coin, add_coin,
  remove_coin, spend_inputs, create_outputs, transfer,
}
use xbtc.Coins.Unspent.{keep}
use xbtc.Coins.Passed.{Spent, transfer-Passed}
use xbtc.Coins.Flush.{IsMap, IsCached}

IsMap-erase : (k : TransactionOutPoint) (t : Table CoinEntry) → IsMap t → IsMap (erase k t)
unfolding IsMap erase
IsMap-erase k [] w = tt
IsMap-erase k ((k', e) ∷ t) (new, w) = elim (Bool-cases (eq_out k' k)) [
  | inl f ↦ rw f (IsMap-erase k t w)
  | inr f ↦ rw f (
    find-erase t k k' ∙ elim (Bool-cases (eq_out k k')) [ inl g ↦ rw g refl | inr g ↦ rw g new ],
    IsMap-erase k t w,
  )
]

IsMap-insert :
    (k : TransactionOutPoint) (e : CoinEntry) (t : Table CoinEntry) → IsMap t → IsMap (insert k e t)
unfolding IsMap insert
IsMap-insert k e t w = (find-erase t k k ∙ rw (eq_out_refl k) refl, IsMap-erase k t w)

-- What an entry has to say of the coin under its outpoint.
IsClean : Db → TransactionOutPoint → CoinEntry → Type 0
IsClean db k e = (positive e.coin && e.dirty) ≡ false → keep e.coin ≡ (db k >>= keep)

IsCached-cache :
    (k : TransactionOutPoint) (entry : CoinEntry) (v : CoinView)
    → IsCached v
    → IsClean v.db k entry
    → IsCached (cache k entry v)
unfolding IsClean
IsCached-cache k entry v w c = record {
  distinct = IsMap-insert k entry v.added w.distinct;
  clean = λ x e f d. elim (Bool-cases (eq_out k x)) [
    | inr g ↦ w.clean x e (sym (find-insert v.added k x entry ∙ rw g refl) ∙ f) d
    | inl g ↦
        let here : some entry ≡ some e = sym (find-insert v.added k x entry ∙ rw g refl) ∙ f in
        let same : entry ≡ e = cc in rw (← eq_out-eq k x g, ← same) (c (rw (← same) at d))
  ];
}

IsCached-remove_coin :
    (k : TransactionOutPoint) (v : CoinView) → IsCached v → IsCached (remove_coin k v)
unfolding remove_coin
IsCached-remove_coin k v w = record {
  distinct = IsMap-erase k v.added w.distinct;
  clean = λ x e f d. elim (Bool-cases (eq_out k x)) [
    | inr g ↦ w.clean x e (sym (find-erase v.added k x ∙ rw g refl) ∙ f) d
    | inl g ↦ absurd (none-ne-some (sym (find-erase v.added k x ∙ rw g refl) ∙ f))
  ];
}

-- A view over the same database whose cache is in form.
abbrev IsOver : Db → CoinView → Type 0
IsOver db v = IsCached v × (v.db ≡ db)

IsOver-same :
    {A : Type 0} (a c : A) (v v' : CoinView) (db : Db)
    → IsOver db v
    → ◌≡◌ {A = Option (A × CoinView)} (some (a, v)) (some (c, v'))
    → IsOver db v'
IsOver-same a c v v' db w e = subst (IsOver db) (some-pair_right e) w

IsOver-fetch_coin :
    (k : TransactionOutPoint) (v : CoinView) (c : Option Coin) (v' : CoinView)
    → IsCached v
    → fetch_coin k v ≡ some (c, v')
    → IsOver v.db v'
unfolding fetch_coin IsClean
IsOver-fetch_coin k v c v' w r = elim (Bool-cases (is_some (find v.removed k))) [
  | inl gone ↦ IsOver-same none c v v' v.db (w, refl) (rw (gone, fetch_coin) at r)
  | inr here ↦ elim (Option-cases (find v.added k)) [
    | inr (entry, a) ↦
        IsOver-same (some entry.coin) c v v' v.db (w, refl) (rw (here, a, fetch_coin) at r)
    | inl a ↦ elim (Option-cases (v.db k)) [
      | inl d ↦
          let entry : CoinEntry = record { coin = null_coin; dirty = false } in
          IsOver-same (some null_coin) c (cache k entry v) v' v.db
            (IsCached-cache k entry v w (λ z. rw d refl), refl) (rw (here, a, d, fetch_coin) at r)
      | inr (coin, d) ↦
          let entry : CoinEntry = record { coin = coin; dirty = false } in
          elim (Bool-cases (
            positive coin && (leb coin.height v.best_block_height || (v.best_block_height == 0)))) [
              | inr bad ↦ absurd (none-ne-some (rw (here, a, d, bad, fetch_coin) at r))
              | inl good ↦
                  IsOver-same (some coin) c (cache k entry v) v' v.db
                    (IsCached-cache k entry v w (λ z. rw d refl), refl)
                    (rw (here, a, d, good, fetch_coin) at r)
            ]
    ]
  ]
]

IsOver-spend_inputs :
    (inputs : List TransactionInput) (acc n : ℤ) (v v' : CoinView)
    → IsCached v
    → spend_inputs inputs acc v ≡ some (n, v')
    → IsOver v.db v'
unfolding spend_inputs remove_coin
IsOver-spend_inputs [] acc n v v' w r = IsOver-same acc n v v' v.db (w, refl) r
IsOver-spend_inputs (input ∷ inputs) acc n v v' w r =
    let k = input.previous_output in
    elim (Option-cases (fetch_coin k v)) [
      | inl f ↦ absurd (none-ne-some (rw (f, spend_inputs) at r))
      | inr ((none, v1), f) ↦ absurd (none-ne-some (rw (f, spend_inputs) at r))
      | inr ((some c, v1), f) ↦
          let (w1, d1) = IsOver-fetch_coin k v (some c) v1 w f in
          elim (Bool-cases (positive c)) [
            | inr p ↦ absurd (none-ne-some (rw (f, p, spend_inputs) at r))
            | inl p ↦ elim (Option-cases (add_int64 acc (int64_of c.output.value))) [
              | inl g ↦ absurd (none-ne-some (rw (f, p, g, spend_inputs) at r))
              | inr (sum, g) ↦
                  let (w2, d2) =
                    IsOver-spend_inputs inputs sum n (remove_coin k v1) v'
                      (IsCached-remove_coin k v1 w1) (rw (f, p, g, spend_inputs) at r) in
                  (w2, d2 ∙ d1)
            ]
          ]
    ]

-- The database has no output of the hash.
abbrev pub IsNew : ℕ → Db → Type 0
IsNew hash db = (i : ℕ) → db (record { hash = hash; index = i }) ≡ none

IsCached-add_coin :
    (k : TransactionOutPoint) (c : Coin) (v : CoinView)
    → IsCached v
    → v.db k ≡ none
    → IsCached (cache k (record { coin = c; dirty = true }) v)
unfolding IsClean
IsCached-add_coin k c v w d =
    IsCached-cache k (record { coin = c; dirty = true }) v w
      (λ z. elim (Bool-cases (positive c)) [
        | inr p ↦ rw (p, d) refl
        | inl p ↦ absurd (true_ne_false (rw p at z))
      ])
  where
    true_ne_false : true ≡ false → ⊥
    true_ne_false h = cc

IsOver-create_outputs :
    (hash : ℕ) (coin_base : Bool) (height i : ℕ) (outputs : List TransactionOutput) (acc n : ℤ)
    (v v' : CoinView)
    → IsCached v
    → IsNew hash v.db
    → create_outputs hash coin_base height i outputs acc v ≡ some (n, v')
    → IsOver v.db v'
unfolding create_outputs add_coin
IsOver-create_outputs hash coin_base height i [] acc n v v' w new r =
    IsOver-same acc n v v' v.db (w, refl) r
IsOver-create_outputs hash coin_base height i (output ∷ outputs) acc n v v' w new r =
    let k : TransactionOutPoint = record { hash = hash; index = i } in
    let coin : Coin = record { output = output; height = height; is_coin_base = coin_base } in
    elim (Option-cases (add_int64 acc (int64_of output.value))) [
      | inl g ↦ absurd (none-ne-some (rw (g, create_outputs) at r))
      | inr (sum, g) ↦ elim (Bool-cases (leb height v.best_block_height)) [
        | inr h ↦ absurd (none-ne-some (rw (g, h, create_outputs, add_coin) at r))
        | inl h ↦
            IsOver-create_outputs hash coin_base height (suc i) outputs sum n
              (cache k (record { coin = coin; dirty = true }) v) v'
              (IsCached-add_coin k coin v w (new i)) new (rw (g, h, create_outputs, add_coin) at r)
      ]
    ]

IsOver-Spent : (tx : Transaction) (v v1 : CoinView) → IsCached v → Spent tx v v1 → IsOver v.db v1
IsOver-Spent tx v v1 w (inl same) = subst (IsOver v.db) (sym same) (w, refl)
IsOver-Spent tx v v1 w (inr (m, run)) = IsOver-spend_inputs tx.inputs (pos 0) m v v1 w run

-- A transfer that succeeds keeps the cache in the form that flush asks for and does not touch the
-- database, for a transaction of whose hash the database has no coin.
pub transfer-IsCached :
    (tx : Transaction) (height : ℕ) (v v' : CoinView)
    → IsCached v
    → IsNew tx.hash v.db
    → transfer tx height v ≡ some v'
    → IsCached v' × (v'.db ≡ v.db)
transfer-IsCached tx height v v' w new r =
    let (v1, n, spent, made) = transfer-Passed tx height v v' r in
    let (w1, d1) = IsOver-Spent tx v v1 w spent in
    let (w2, d2) =
      IsOver-create_outputs tx.hash (is_coin_base tx) height 0 tx.outputs (pos 0) n v1 v' w1
        (λ i. ap (λ db. db (record { hash = tx.hash; index = i })) d1 ∙ new i) made in
    (w2, d2 ∙ d1)
