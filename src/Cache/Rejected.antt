-- ===== src/Cache/Rejected.antt =====
-- addBlockIndex on a header that is not valid, and on the block after it.
use xbtc.Base.{
  ℕ, ◌≡◌, ◌≢◌, refl, sym, ◌∙◌, ap, Bool, true, false, Option, none, some, ==_refl, ne→==,
}
use xbtc.Base.Maps.{Map, get, put, get-put}
use xbtc.Data.Block.{BlockHeader}
use xbtc.Cache.{
  BlockIndex, BlockCache, Validator, deref, create_block_index, link_block, add_block_index,
}
use xbtc.Cache.Index.{deref-put}

module _ (proof : ℕ → ℕ) (validator : Validator) where
  link_block-null :
      (blocks : Map (Option BlockIndex)) (e : BlockIndex)
      → e.saved.header.previous_block_hash ≢ 0
      → get blocks e.saved.header.previous_block_hash ≡ some none
      → link_block validator proof blocks e ≡ none
  unfolding link_block
  link_block-null blocks e nz g =
      rw (ne→== e.saved.header.previous_block_hash 0 nz, g, link_block) refl

  -- After addBlockIndex has rejected a new header, it follows a null pointer for a valid new
  -- header whose parent is the rejected one.
  pub add_block_index_rejected :
      (late : Bool) (header child : BlockHeader) (s : BlockCache)
      → header.hash ≢ 0
      → deref s.blocks header.hash ≡ none
      → validator.validate_header header ≡ false
      → child.hash ≢ 0
      → child.previous_block_hash ≡ header.hash
      → header.hash ≢ child.hash
      → deref s.blocks child.hash ≡ none
      → validator.validate_header child ≡ true
      → (s' : BlockCache) × (add_block_index validator proof late header s ≡ some (none, s'))
        × (add_block_index validator proof late child s' ≡ none)
  unfolding add_block_index
  add_block_index_rejected late header child s nz new bad nz' link apart new' good =
      let blocks = put header.hash none s.blocks in
      let s' = record s { blocks = blocks } in
      let e0 = create_block_index child in
      let child_new : deref blocks child.hash ≡ none =
        deref-put header.hash child.hash none s.blocks
        ∙ rw (ne→== header.hash child.hash apart) new' in
      let found : get (put child.hash (some e0) blocks) header.hash ≡ some none =
        get-put child.hash header.hash (some e0) blocks
        ∙ rw (ne→== child.hash header.hash (λ e. apart (sym e)))
            (get-put header.hash header.hash none s.blocks ∙ rw (==_refl header.hash) refl) in
      let crash : link_block validator proof (put child.hash (some e0) blocks) e0 ≡ none =
        link_block-null (put child.hash (some e0) blocks) e0 (λ z. nz (sym link ∙ z))
          (ap (get (put child.hash (some e0) blocks)) link ∙ found) in
      (
        s',
        rw (ne→== header.hash 0 nz, new, bad, add_block_index) refl,
        rw (ne→== child.hash 0 nz', child_new, good, crash, add_block_index) refl,
      )
