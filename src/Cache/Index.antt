-- ===== src/Cache/Index.antt =====
-- addBlockIndex keeps the index in form: heights and work add up along the blocks before, and the best header has the
-- most work.
use xbtc.Base.{
  ℕ, ◌+◌, ◌%◌, ◌^◌, ◌≤◌, ◌≡◌, refl, sym, ◌∙◌, ap, subst, Option, none, some, ltb, ltb→le, ltb→lt,
  ◌==◌, ==_refl, ==_iff, if◌then◌else◌, Bool-cases, inl, inr, none-ne-some, arith,
}
use xbtc.Base.Maps.{Map, put, get-put}
use xbtc.Cache.{BlockIndex, deref}

abbrev pub View : Type 0
View = ℕ → Option BlockIndex

abbrev pub with_entry : ℕ → BlockIndex → View → View
with_entry h e f j = if h == j then some e else f j

pub deref-put :
    (h j : ℕ) (o : Option BlockIndex) (m : Map (Option BlockIndex))
    → deref (put h o m) j ≡ (if h == j then o else deref m j)
unfolding deref
deref-put h j o m = elim (Bool-cases (h == j)) [
  | inl e ↦ rw (get-put h j o m, e, deref) refl
  | inr e ↦ rw (get-put h j o m, e, deref) refl
]

pub some_eq {ℓ} : {A : Type ℓ} {a b : A} → some a ≡ some b → a ≡ b
some_eq h = cc

module _ (proof : ℕ → ℕ) where
  -- An entry and the one before it.
  pub record Follows (e p : BlockIndex) : Type 0 where
    pub height : e.saved.height ≡ p.saved.height + 1
    pub work : e.chain_work ≡ (proof e.saved.header.bits + p.chain_work) % 2 ^ 256
    pub time : p.max_time ≤ e.max_time
    pub own_time : e.saved.header.timestamp ≤ e.max_time

  -- An entry is linked to the one before it, if it has one.
  pub record IsLinked (f : View) (e : BlockIndex) : Type 0 where
    pub first :
        e.previous ≡ none → (e.saved.height ≡ 0) × (e.chain_work ≡ proof e.saved.header.bits)
    pub after :
        (k : ℕ)
        → e.previous ≡ some k
        → (e.saved.header.previous_block_hash ≡ k)
          × ((p : BlockIndex) × (f k ≡ some p) × Follows e p)

  -- The best header has the most work.
  pub record IsBest (f : View) (best : Option ℕ) : Type 0 where
    pub empty : best ≡ none → (k : ℕ) → f k ≡ none
    pub most :
        (b : ℕ)
        → best ≡ some b
        → (e : BlockIndex) × (f b ≡ some e)
          × ((k : ℕ) (d : BlockIndex) → f k ≡ some d → d.chain_work ≤ e.chain_work)

  pub record IsIndex (f : View) (best : Option ℕ) : Type 0 where
    pub named : (k : ℕ) (e : BlockIndex) → f k ≡ some e → e.saved.header.hash ≡ k
    pub linked : (k : ℕ) (e : BlockIndex) → f k ≡ some e → IsLinked f e
    pub best_of : IsBest f best

  -- What a view says after an entry has been added under a new name.
  entry_at : (h : ℕ) (e : BlockIndex) (f : View) → with_entry h e f h ≡ some e
  entry_at h e f = rw (==_refl h) refl

  entry_kept :
      (h : ℕ) (e : BlockIndex) (f : View) (k : ℕ) (d : BlockIndex)
      → f h ≡ none
      → f k ≡ some d
      → with_entry h e f k ≡ some d
  entry_kept h e f k d new at_k = elim (Bool-cases (h == k)) [
    | inr ne ↦ rw ne at_k
    | inl eq ↦ absurd (none-ne-some (sym new ∙ ap f ((==_iff h k).0 eq) ∙ at_k))
  ]

  IsLinked-with_entry :
      (h : ℕ) (e : BlockIndex) (f : View) (d : BlockIndex)
      → f h ≡ none
      → IsLinked f d
      → IsLinked (with_entry h e f) d
  IsLinked-with_entry h e f d new w = record {
    first = w.first;
    after = λ k q.
        let (name, (p, at_k, r)) = w.after k q in (name, (p, entry_kept h e f k p new at_k, r));
  }

  -- What holds of the new entry and of the old ones holds of all.
  one_of {ℓ} :
      (P : ℕ → BlockIndex → Type ℓ) (h : ℕ) (e : BlockIndex) (f : View)
      → P h e
      → ((k : ℕ) (d : BlockIndex) → f k ≡ some d → P k d)
      → (k : ℕ) (d : BlockIndex) → with_entry h e f k ≡ some d
      → P k d
  one_of P h e f here there k d q = elim (Bool-cases (h == k)) [
    | inr ne ↦ there k d (rw ne at q)
    | inl eq ↦ subst (λ j. P j d) ((==_iff h k).0 eq) (subst (P h) (some_eq (rw eq at q)) here)
  ]

  -- The best header after updateBlockInfo: by the work of the entry that was the best.
  abbrev pub BestAfter : ℕ → BlockIndex → View → Option ℕ → Option ℕ → Type 0
  BestAfter h e f none best' = best' ≡ some h
  BestAfter h e f (some b) best' =
      (d : BlockIndex) × (f b ≡ some d)
      × (best' ≡ (if ltb d.chain_work e.chain_work then some h else some b))

  IsBest-with_entry :
      (h : ℕ) (e : BlockIndex) (f : View) (best best' : Option ℕ)
      → f h ≡ none
      → IsBest f best
      → BestAfter h e (with_entry h e f) best best'
      → IsBest (with_entry h e f) best'
  IsBest-with_entry h e f none best' new w r = record {
    empty = λ z. absurd (none-ne-some (sym z ∙ r));
    most = λ b q.
        let same : h ≡ b = some_eq (sym r ∙ q) in
        (
          e,
          subst (λ j. with_entry h e f j ≡ some e) same (entry_at h e f),
          one_of (λ k d. d.chain_work ≤ e.chain_work) h e f (omega arith)
              (λ k d at_k. absurd (none-ne-some (sym (w.empty refl k) ∙ at_k))),
        );
  }
  IsBest-with_entry h e f (some b) best' new w (d, at_b, r) =
      let (d', at_b', most) = w.most b refl in
      let same : d ≡ d' = some_eq (sym at_b ∙ entry_kept h e f b d' new at_b') in
      elim (Bool-cases (ltb d.chain_work e.chain_work)) [
        | inl lt ↦
            let r' : best' ≡ some h = rw lt at r in
            let above = ltb→lt d.chain_work e.chain_work lt in
            record {
              empty = λ z. absurd (none-ne-some (sym z ∙ r'));
              most = λ b1 q. (
                e,
                subst (λ j. with_entry h e f j ≡ some e) (some_eq (sym r' ∙ q)) (entry_at h e f),
                one_of (λ k c. c.chain_work ≤ e.chain_work) h e f (omega arith)
                    (λ k c at_k.
                      let le = most k c at_k in
                      omega (arith, ap (λ (t : BlockIndex). t.chain_work) same)),
              );
            }
        | inr ge ↦
            let r' : best' ≡ some b = rw ge at r in
            let below = ltb→le d.chain_work e.chain_work ge in
            record {
              empty = λ z. absurd (none-ne-some (sym z ∙ r'));
              most = λ b1 q. (
                d',
                subst (λ j. with_entry h e f j ≡ some d') (some_eq (sym r' ∙ q))
                    (entry_kept h e f b d' new at_b'),
                one_of (λ k c. c.chain_work ≤ d'.chain_work) h e f
                    (omega (arith, ap (λ (t : BlockIndex). t.chain_work) same)) most,
              );
            }
      ]

  -- A new entry in form.
  pub IsIndex-with_entry :
      (h : ℕ) (e : BlockIndex) (f : View) (best best' : Option ℕ)
      → f h ≡ none
      → e.saved.header.hash ≡ h
      → IsLinked f e
      → IsIndex f best
      → BestAfter h e (with_entry h e f) best best'
      → IsIndex (with_entry h e f) best'
  IsIndex-with_entry h e f best best' new name link w r = record {
    named = one_of (λ k d. d.saved.header.hash ≡ k) h e f name w.named;
    linked =
        one_of (λ k d. IsLinked (with_entry h e f) d) h e f (IsLinked-with_entry h e f e new link)
          (λ k d at_k. IsLinked-with_entry h e f d new (w.linked k d at_k));
    best_of = IsBest-with_entry h e f best best' new w.best_of r;
  }
