-- ===== src/Cache/Add.antt =====
-- addBlockIndex, as the adding of one entry to the index.
use mathlib.Core.Path.{fun_ext}
use xbtc.Base.{
  ℕ, ◌≡◌, ◌≢◌, ◌⊎◌, refl, sym, ◌∙◌, ap, subst, Bool, false, Option, none, some, ◌==◌, ==_refl,
  ==_iff, ne→==, Bool-cases, Option-cases, inl, inr, none-ne-some, some-pair_right, some-pair_left,
  >>=-eq-some,
}
use xbtc.Base.Maps.{Map, get, put}
use xbtc.Data.Block.{BlockHeader, raise_validity, valid_tree}
use xbtc.Cache.{
  BlockIndex, BlockCache, Validator, deref, create_block_index, mark_dirty_block, link_block,
  update_block_info, add_block_index,
}
use xbtc.Cache.Index.{with_entry, deref-put, IsIndex, IsIndex-with_entry, BestAfter}
use xbtc.Cache.Sums.{
  deref_of, mark_dirty_block-SameIndex, IsPlaced, with_sums-SumsUp, update_block_info-eq,
  link_block-IsPlaced,
}

module _ (proof : ℕ → ℕ) (validator : Validator) where
  -- What addBlockIndex leaves: the index in form, and the entry under its name, unless the header is not valid.
  abbrev pub Adds : BlockHeader → Option ℕ → BlockCache → Type 0
  Adds header r s =
      IsIndex proof (deref s.blocks) s.best_header
      × (((r ≡ some header.hash) × ((e : BlockIndex) × (deref s.blocks header.hash ≡ some e)))
          ⊎ ((r ≡ none) × (validator.validate_header header ≡ false)))

  Adds-of_result :
      (header : BlockHeader) (r r' : Option ℕ) (s s' : BlockCache)
      → Adds header r s
      → ◌≡◌ {A = Option (Option ℕ × BlockCache)} (some (r, s)) (some (r', s'))
      → Adds header r' s'
  Adds-of_result header r r' s s' w e =
      subst (λ x. Adds header x s') (some-pair_left e) (subst (Adds header r) (some-pair_right e) w)

  deref-put-none :
      (h : ℕ) (m : Map (Option BlockIndex)) → deref m h ≡ none → deref (put h none m) ≡ deref m
  deref-put-none h m new = fun_ext λ j. elim (Bool-cases (h == j)) [
    | inl e ↦ deref-put h j none m ∙ rw e (sym new ∙ ap (deref m) ((==_iff h j).0 e))
    | inr e ↦ deref-put h j none m ∙ rw e refl
  ]

  deref-put_twice :
      (h : ℕ) (e : BlockIndex) (o o' : Option BlockIndex) (m : Map (Option BlockIndex))
      → deref (put h (some e) (put h o (put h o' m))) ≡ with_entry h e (deref m)
  deref-put_twice h e o o' m = fun_ext λ j. elim (Bool-cases (h == j)) [
    | inl q ↦ deref-put h j (some e) (put h o (put h o' m)) ∙ rw q refl
    | inr q ↦
        deref-put h j (some e) (put h o (put h o' m))
        ∙ rw q (deref-put h j o (put h o' m) ∙ rw q (deref-put h j o' m ∙ rw q refl))
  ]

  deref-put_other :
      (h j : ℕ) (o : Option BlockIndex) (m : Map (Option BlockIndex))
      → j ≢ h
      → deref (put h o m) j ≡ deref m j
  deref-put_other h j o m ne = deref-put h j o m ∙ rw (ne→== h j (λ e. ne (sym e))) refl

  -- The entry as it is when it is summed up.
  abbrev in_tree : BlockIndex → BlockIndex
  in_tree e = record e {
    saved = record (e.saved) { status = (raise_validity valid_tree e.saved.status).0 };
  }

  added-IsIndex :
      (header : BlockHeader) (s s1 : BlockCache) (e : BlockIndex)
      → IsIndex proof (deref s.blocks) s.best_header
      → header.previous_block_hash ≢ header.hash
      → deref s.blocks header.hash ≡ none
      → link_block validator proof
          (put header.hash (some (create_block_index header)) s.blocks)
          (create_block_index header)
        ≡ some e
      → update_block_info validator proof header.hash (record s {
        blocks =
            put header.hash
              (some (in_tree e))
              (put header.hash (some (create_block_index header)) s.blocks);
      })
        ≡ some s1
      → IsIndex proof (deref s1.blocks) s1.best_header
        × ((e' : BlockIndex) × (deref s1.blocks header.hash ≡ some e'))
  added-IsIndex header s s1 e w apart new linked updated =
      let h = header.hash in
      let prev = header.previous_block_hash in
      let f = deref s.blocks in
      let e0 = create_block_index header in
      let blocks1 = put h (some e0) s.blocks in
      let blocks2 = put h (some (in_tree e)) blocks1 in
      let found : (p : BlockIndex) → get blocks1 prev ≡ some (some p) → f prev ≡ some p =
        λ p g. sym (deref-put_other h prev (some e0) s.blocks apart) ∙ deref_of blocks1 prev p g in
      let (placed, same_header, from_prev) =
        link_block-IsPlaced proof validator blocks1 f e0 e refl refl found linked in
      let placed' : IsPlaced proof validator f (in_tree e) = record {
        first = placed.first;
        after = placed.after;
      } in
      let at_h : deref blocks2 h ≡ some (in_tree e) =
        deref-put h h (some (in_tree e)) blocks1 ∙ rw (==_refl h) refl in
      let (e2, sums, at_blocks, best) =
        update_block_info-eq proof validator h (record s { blocks = blocks2 }) s1 (in_tree e) at_h
          updated in
      let other : (k : ℕ) → e.previous ≡ some k → deref blocks2 k ≡ f k = λ k q.
        let ne : k ≢ h = λ z. apart (sym (from_prev k q) ∙ z) in
        deref-put_other h k (some (in_tree e)) blocks1 ne
        ∙ deref-put_other h k (some e0) s.blocks ne in
      let up = with_sums-SumsUp proof validator blocks2 f (in_tree e) e2 placed' other sums in
      let name : e2.saved.header.hash ≡ h =
        ap (λ (t : BlockHeader). t.hash) (up.header ∙ same_header) in
      let view : deref (put h (some e2) blocks2) ≡ with_entry h e2 f =
        deref-put_twice h e2 (some (in_tree e)) (some e0) s.blocks in
      let whole =
        IsIndex-with_entry proof h e2 f s.best_header s1.best_header new name up.linked w
          (subst (λ t. BestAfter proof h e2 t s.best_header s1.best_header) view best) in
      let view' : deref s1.blocks ≡ with_entry h e2 f = ap deref at_blocks ∙ view in
      (
        subst (λ t. IsIndex proof t s1.best_header) (sym view') whole,
        (e2, ap (λ t. t h) view' ∙ rw (==_refl h) refl),
      )

  -- When addBlockIndex returns for a header that is not its own parent, it has left an index in
  -- form: every entry is under its hash, one above the height of the block before, with the sum of
  -- their work and no earlier time, and the best header is of the most work. It returns the entry,
  -- which is then in the index, or a null pointer for a header that is not valid.
  pub add_block_index-IsIndex :
      (late : Bool) (header : BlockHeader) (s s' : BlockCache) (r : Option ℕ)
      → IsIndex proof (deref s.blocks) s.best_header
      → header.previous_block_hash ≢ header.hash
      → add_block_index validator proof late header s ≡ some (r, s')
      → Adds header r s'
  unfolding add_block_index
  add_block_index-IsIndex late header s s' r w apart run =
      let h = header.hash in
      elim (Bool-cases (h == 0)) [
        | inl z ↦ absurd (none-ne-some (rw z at run))
        | inr nz ↦ elim (Option-cases (deref s.blocks h)) [
          | inr (e, at_h) ↦
              Adds-of_result header (some h) r s s' (w, inl (refl, (e, at_h)))
                (rw (nz, at_h, add_block_index) at run)
          | inl new ↦ elim (Bool-cases (validator.validate_header header)) [
            | inr bad ↦
                Adds-of_result header none r (record s { blocks = put h none s.blocks }) s'
                  (
                    subst (λ t. IsIndex proof t s.best_header) (sym (deref-put-none h s.blocks new))
                        w,
                    inr (refl, bad),
                  )
                  (rw (nz, new, bad, add_block_index) at run)
            | inl good ↦
                let (e, le, k1) =
                  >>=-eq-some
                    (link_block validator proof (put h (some (create_block_index header)) s.blocks)
                      (create_block_index header))
                    _ (r, s') (rw (nz, new, good, add_block_index) at run) in
                let (s1, ue, k2) =
                  >>=-eq-some
                    (update_block_info validator proof h (record s {
                      blocks =
                          put h (some (in_tree e))
                            (put h (some (create_block_index header)) s.blocks);
                    }))
                    _ (r, s') k1 in
                let (s2, me, k3) = >>=-eq-some (mark_dirty_block late h s1) _ (r, s') k2 in
                let (index, (e2, at_h)) = added-IsIndex header s s1 e w apart new le ue in
                let (same_blocks, same_best) = mark_dirty_block-SameIndex late h s1 s2 me in
                Adds-of_result header (some h) r s2 s'
                  (rw (same_blocks, same_best) index, inl (refl, (e2, rw same_blocks at_h))) k3
          ]
        ]
      ]
