-- ===== src/Net/Sync/Download.antt =====
-- findBlocksToDownload asks for the next blocks on the way to the best one that the node is known to have.
use xbtc.Base.{
  ℕ, suc, ◌+◌, ◌-◌, ◌≤◌, ◌<◌, ◌≡◌, refl, sym, ◌∙◌, ap, true, false, some, List, [], length, ◌==◌,
  ==_iff, ==_refl, if◌then◌else◌, arith, inl, inr, Bool-cases, le→ltb,
}
use xbtc.Chain.Index.{Tree}
use xbtc.Chain.Ancestor.{Ancestor, self, up, IsTree, Ancestor-le, get_ancestor-Ancestor}
use xbtc.Chain.Active.{get_tip}
use xbtc.Chain.Fork.{IsLastCommon, find_last_common_ancestor-IsLastCommon, Ancestor-between}
use xbtc.Cache.{BlockCache, tree_of}
use xbtc.Net.Sync.{
  NodeSyncInfo, min, max, work_of, process_block_availability, guess_common, download_from,
  find_blocks_to_download, fill_back, block_download_window,
}
use xbtc.Net.Sync.Path.{Leads, here, fill_back-Leads}

module _ (s : BlockCache) (w : IsTree (tree_of s.blocks)) where
  abbrev tree : Tree
  tree = tree_of s.blocks

  lower : {c b : ℕ} → Ancestor tree c b → (c == b) ≡ false → (tree c).height < (tree b).height
  lower {c = c} self e = let z : true ≡ false = sym (==_refl c) ∙ e in cc
  lower {b = b} (up {p = p} q x) e = omega (arith, w.child b p q, Ancestor-le tree w x)

  -- What is asked for: the blocks after the last common one, up to an ancestor of the best one.
  pub record IsDownload (count best common : ℕ) (blocks : List ℕ) (info info' : NodeSyncInfo)
      : Type 0 where
    pub last : ℕ
    pub leads : Leads tree common last blocks
    pub on_the_way : Ancestor tree last best
    pub number :
        length blocks
        ≡ min
            ((tree best).height - (tree common).height)
            (min (block_download_window + 1) (max count 128))
    pub state : info' ≡ record info {
      last_common_block = some last;
      last_download_block = if common == best then info.last_download_block else some last;
    }

  download_from-IsDownload :
      (count best common : ℕ) (info : NodeSyncInfo)
      → Ancestor tree common best
      → (blocks : List ℕ) × (info' : NodeSyncInfo) × (download_from count s best common info
          ≡ some (blocks, info'))
        × IsDownload count best common blocks info info'
  unfolding download_from
  download_from-IsDownload count best common info anc = elim (Bool-cases (common == best)) [
    | inl same ↦
        let eq : common ≡ best = (==_iff common best).0 same in
        (
          [],
          record info { last_common_block = some common },
          rw same refl,
          record {
            last = common;
            leads = here;
            on_the_way = anc;
            number = rw (← eq) (ground arith);
            state = rw same refl;
          },
        )
    | inr apart ↦
        let high = (tree best).height in
        let base = (tree common).height in
        let real_count = min (min high (base + block_download_window + 1) - base) (max count 128) in
        let low : base < high = lower anc apart in
        let fits : base + real_count ≤ high = ground arith in
        let some_blocks : real_count ≡ suc (real_count - 1) = ground arith in
        let count_is : real_count
            ≡ min (high - base) (min (block_download_window + 1) (max count 128)) =
          ground arith in
        let (block, r, on, level) = get_ancestor-Ancestor tree w best (base + real_count) fits in
        let below = Ancestor-between tree w on anc (omega (arith, level)) in
        let (blocks, f, leads, size) =
          fill_back-Leads tree w common block (real_count - 1) block [] below
            (omega (arith, level, some_blocks)) here in
        let f' : fill_back real_count tree block [] ≡ some blocks =
          ap (λ n. fill_back n tree block []) some_blocks ∙ f in
        (
          blocks,
          record info { last_download_block = some block; last_common_block = some block },
          rw (apart, r, f') refl,
          record {
            last = block;
            leads = leads;
            on_the_way = on;
            number = omega (arith, size, some_blocks) ∙ count_is;
            state = rw apart refl;
          },
        )
  ]

  -- For a node whose best known block has no less work than the tip and than the least that is
  -- asked for, findBlocksToDownload finds the last common ancestor of its last common block, or of
  -- the first guess, and that best block, and lists the blocks that lead from there towards the
  -- best one, each the parent of the next: as many as are missing, and no more than 1025 or than
  -- the count or 128. It keeps the last of them as the last common block, and as the last one
  -- downloaded if there are any.
  pub find_blocks_to_download-IsDownload :
      (minimum count best tip guess root : ℕ) (info : NodeSyncInfo)
      → (process_block_availability s info).best_known_block ≡ some best
      → get_tip s.chain ≡ some (some tip)
      → work_of s tip ≤ work_of s best
      → minimum ≤ work_of s best
      → guess_common s (process_block_availability s info).last_common_block best ≡ some guess
      → Ancestor tree root guess
      → Ancestor tree root best
      → (common : ℕ) × IsLastCommon tree w guess best common
        × ((blocks : List ℕ) × (info' : NodeSyncInfo) × (find_blocks_to_download minimum count s
                info
              ≡ some (blocks, info'))
            × IsDownload count best common blocks (process_block_availability s info) info')
  unfolding find_blocks_to_download
  find_blocks_to_download-IsDownload minimum count best tip guess root info known top enough more
        guessed below_guess below_best =
      let info1 = process_block_availability s info in
      let (common, r, last) =
        find_last_common_ancestor-IsLastCommon tree w guess best root below_guess below_best in
      let (blocks, info', d, ok) =
        download_from-IsDownload count best common info1 ((unfold IsLastCommon in last.1)) in
      (
        common,
        last,
        (
          blocks,
          info',
          rw
              (
                known,
                top,
                le→ltb (work_of s best) (work_of s tip) enough,
                le→ltb (work_of s best) minimum more,
                guessed,
                r,
                find_blocks_to_download,
              )
              d,
          ok,
        ),
      )
