-- ===== src/Cache/Sums.antt =====
-- The parts of addBlockIndex: the link to the block before, the sums, and the dirty blocks.
use xbtc.Base.{
  ℕ, ◌+◌, ◌%◌, ◌^◌, ◌≡◌, refl, sym, ◌∙◌, ap, subst, Bool, true, Option, none, some, [], ◌∷◌, length,
  ltb, leb, ◌||◌, ◌==◌, if◌then◌else◌, Bool-cases, Option-cases, inl, inr, none-ne-some, arith,
}
use xbtc.Base.Maps.{Map, get, put}
use xbtc.Coins.{flush}
use xbtc.Cache.{
  BlockIndex, BlockCache, Validator, deref, mark_dirty_block, flush_all, link_block, with_sums,
  update_block_info, has,
}
use xbtc.Cache.Index.{View, IsLinked, BestAfter, some_eq}

pub deref_of :
    (m : Map (Option BlockIndex)) (j : ℕ) (p : BlockIndex)
    → get m j ≡ some (some p)
    → deref m j ≡ some p
unfolding deref
deref_of m j p g = rw (g, deref) refl

-- The index of two states is the same.
abbrev pub SameIndex : BlockCache → BlockCache → Type 0
SameIndex s s' = (s'.blocks ≡ s.blocks) × (s'.best_header ≡ s.best_header)

SameIndex-of_result : (s t t' : BlockCache) → SameIndex s t → some t ≡ some t' → SameIndex s t'
SameIndex-of_result s t t' w e = subst (SameIndex s) (some_eq e) w

pub mark_dirty_block-SameIndex :
    (late : Bool) (h : ℕ) (s s' : BlockCache) → mark_dirty_block late h s ≡ some s' → SameIndex s s'
unfolding mark_dirty_block flush_all
mark_dirty_block-SameIndex late h s s' e =
    let dirty = if has h s.dirty then s.dirty else h ∷ s.dirty in
    elim (Bool-cases (leb 100000 (length dirty) || late)) [
      | inr keep ↦ SameIndex-of_result s (record s { dirty = dirty }) s' (refl, refl) (rw keep at e)
      | inl now ↦ elim (Option-cases (flush true s.coins)) [
        | inl f ↦ absurd (none-ne-some (rw (now, f) at e))
        | inr (coins, f) ↦
            SameIndex-of_result s
              (record s { dirty = []; handed = dirty ∷ s.handed; coins = coins }) s' (refl, refl)
              (rw (now, f) at e)
      ]
    ]

module _ (proof : ℕ → ℕ) (validator : Validator) where
  -- An entry that is about to be summed up: it has no block before it, or one of the index, from which its height is.
  pub record IsPlaced (f : View) (e : BlockIndex) : Type 0 where
    pub first : e.previous ≡ none → e.saved.height ≡ 0
    pub after :
        (k : ℕ)
        → e.previous ≡ some k
        → (e.saved.header.previous_block_hash ≡ k)
          × ((p : BlockIndex) × (f k ≡ some p) × (e.saved.height ≡ p.saved.height + 1))

  pub record SumsUp (f : View) (e e' : BlockIndex) : Type 0 where
    pub header : e'.saved.header ≡ e.saved.header
    pub linked : IsLinked proof f e'

  pub with_sums-SumsUp :
      (blocks : Map (Option BlockIndex)) (f : View) (e e' : BlockIndex)
      → IsPlaced f e
      → ((k : ℕ) → e.previous ≡ some k → deref blocks k ≡ f k)
      → with_sums validator proof blocks e ≡ some e'
      → SumsUp f e e'
  unfolding with_sums
  with_sums-SumsUp blocks f e e' w same r =
      let work = proof e.saved.header.bits in
      let time = e.saved.header.timestamp in
      let count = e.saved.transaction_count in
      elim (Option-cases e.previous) [
        | inl q ↦
            let e1 : BlockIndex = record e {
              chain_work = work;
              chain_transaction_count = count;
              max_time = time;
            } in
            subst (SumsUp f e) (some_eq (rw (q, with_sums) at r)) (record {
              header = refl;
              linked = record {
                first = λ z. (w.first q, refl);
                after = λ k z. absurd (none-ne-some (sym q ∙ z));
              };
            })
        | inr (k, q) ↦
            let (name, (p, at_k, high)) = w.after k q in
            let e1 : BlockIndex = record e {
              chain_work = (work + p.chain_work) % 2 ^ 256;
              chain_transaction_count = (count + p.chain_transaction_count) % 2 ^ 32;
              max_time = if ltb time p.max_time then p.max_time else time;
            } in
            subst (SumsUp f e) (some_eq (rw (q, same k q ∙ at_k, with_sums) at r)) (record {
              header = refl;
              linked = record {
                first = λ z. absurd (none-ne-some (sym z ∙ q));
                after = λ j z.
                    let same_key : k ≡ j = some_eq (sym q ∙ z) in
                    (
                      name ∙ same_key,
                      (
                        p,
                        ap f (sym same_key) ∙ at_k,
                        record {
                          height = high;
                          work = refl;
                          time = ground arith;
                          own_time = ground arith;
                        },
                      ),
                    );
              };
            })
      ]

  -- updateBlockInfo on an entry of the index.
  pub update_block_info-eq :
      (h : ℕ) (s s' : BlockCache) (e : BlockIndex)
      → deref s.blocks h ≡ some e
      → update_block_info validator proof h s ≡ some s'
      → (e' : BlockIndex) × (with_sums validator proof s.blocks e ≡ some e')
        × (s'.blocks ≡ put h (some e') s.blocks)
        × BestAfter proof h e' (deref (put h (some e') s.blocks)) s.best_header s'.best_header
  unfolding update_block_info
  update_block_info-eq h s s' e at_h r =
      elim (Option-cases (with_sums validator proof s.blocks e)) [
        | inl z ↦ absurd (none-ne-some (rw (at_h, z) at r))
        | inr (e', z) ↦
            let blocks = put h (some e') s.blocks in
            elim (Option-cases s.best_header) [
              | inl b ↦
                  let q : record s { blocks = blocks; best_header = some h } ≡ s' =
                    some_eq (rw (at_h, z, b) at r) in
                  (
                    e',
                    z,
                    ap (λ (t : BlockCache). t.blocks) (sym q),
                    rw b (ap (λ (t : BlockCache). t.best_header) (sym q)),
                  )
              | inr (j, b) ↦ elim (Option-cases (deref blocks j)) [
                | inl n ↦ absurd (none-ne-some (rw (at_h, z, b, n) at r))
                | inr (d, n) ↦
                    let q : record s {
                      blocks = blocks;
                      best_header = if ltb d.chain_work e'.chain_work then some h else some j;
                    }
                        ≡ s' =
                      some_eq (rw (at_h, z, b, n) at r) in
                    (
                      e',
                      z,
                      ap (λ (t : BlockCache). t.blocks) (sym q),
                      rw b (d, n, ap (λ (t : BlockCache). t.best_header) (sym q)),
                    )
              ]
            ]
      ]

  -- The link of a new entry to the one before it.
  pub link_block-IsPlaced :
      (blocks : Map (Option BlockIndex)) (f : View) (e e' : BlockIndex)
      → e.previous ≡ none
      → e.saved.height ≡ 0
      → ((p : BlockIndex)
          → get blocks e.saved.header.previous_block_hash ≡ some (some p)
          → f e.saved.header.previous_block_hash ≡ some p)
      → link_block validator proof blocks e ≡ some e'
      → IsPlaced f e'
        × (e'.saved.header ≡ e.saved.header)
        × ((k : ℕ) → e'.previous ≡ some k → k ≡ e.saved.header.previous_block_hash)
  unfolding link_block
  link_block-IsPlaced blocks f e e' no_previous low found r =
      let prev = e.saved.header.previous_block_hash in
      let alone : IsPlaced f e = record {
        first = λ z. low;
        after = λ k z. absurd (none-ne-some (sym no_previous ∙ z));
      } in
      let Linked = λ (t : BlockIndex).
        IsPlaced f t
        × (t.saved.header ≡ e.saved.header)
        × ((k : ℕ) → t.previous ≡ some k → k ≡ prev) in
      let unlinked : Linked e = (alone, refl, λ k z. absurd (none-ne-some (sym no_previous ∙ z))) in
      elim (Bool-cases (prev == 0)) [
        | inl z ↦ subst Linked (some_eq (rw z at r)) unlinked
        | inr nz ↦ elim (Option-cases (get blocks prev)) [
          | inl g ↦ subst Linked (some_eq (rw (nz, g, link_block) at r)) unlinked
          | inr (none, g) ↦ absurd (none-ne-some (rw (nz, g, link_block) at r))
          | inr (some p, g) ↦ subst Linked (some_eq (rw (nz, g, link_block) at r)) (
            record {
              first = λ z. absurd (none-ne-some (sym z));
              after = λ k z. (some_eq z, (p, ap f (sym (some_eq z)) ∙ found p g, refl));
            },
            refl,
            λ k z. sym (some_eq z),
          )
        ]
      ]
