-- ===== src/SuperBlocks/Laid.antt =====
-- The chain of blocks in storage after the steps of `create` of src/super_block_manager.cpp.
use consfs.Common.{
  ℕ, ◌^◌, ◌<◌, ◌≡◌, ◌≢◌, ◌&&◌, ltb, ◌==◌, if◌then◌else◌, refl, arith, sym, ◌∙◌, ==_ne, ==_refl,
  subst,
}
use consfs.Addressing.{Geometry, block_index_invalid}
use consfs.Alloc.{BlockType}
use consfs.Backend.{Storage, Answers, new_head, fill_magic, magic_valid}
use consfs.SuperBlocks.{
  SuperBlockLink, new_link, SuperBlock, Reuses, set_type, set_timestamp, is_newer,
}
use consfs.SuperBlocks.Changes.{first_link}
use consfs.SuperBlocks.Chain.{HasSectors, Holds, Chain}
use consfs.SuperBlocks.Links.{
  anchor_link, second_link, IsWords, middle_link, upper_link, next_link, made-IsWords,
}
use consfs.SuperBlocks.Puts.{written, Put, put-Holds, super-Holds, kept-Holds}

module _ (T : Storage) (K : Answers T) (B : Reuses) (P : SuperBlock) where
  -- The storage after each step of `create`, for the blocks of the super block and of the two links.
  pub record Laid (b0 b1 b2 : ℕ) (x : P.Super) (s1 s2 s3 s4 s5 s6 : T.State) : Type 0 where
    pub erased : (p : ℕ) → K.view s1 b0 p ≡ 0xff
    pub middle : Put T K B P s1 s2 b1 (middle_link b0)
    pub upper : Put T K B P s2 s3 b2 (upper_link b0 b1)
    pub first : Put T K B P s3 s4 1 (anchor_link (next_link b0 b1 b2))
    pub second : Put T K B P s4 s5 2 (second_link (next_link b0 b1 b2))
    pub super :
        (k p : ℕ)
        → K.view s6 k p ≡ (
            if k == b0 && ltb p P.super_codec.size then P.super_codec.encode x p else K.view s5 k p)

  pub record Apart (b0 b1 b2 : ℕ) : Type 0 where
    pub behind0 : 2 < b0
    pub behind1 : 2 < b1
    pub behind2 : 2 < b2
    pub first_two : b0 ≢ b1
    pub ends : b0 ≢ b2
    pub last_two : b1 ≢ b2

  module _ (b0 b1 b2 : ℕ) (x : P.Super) (s1 s2 s3 s4 s5 s6 : T.State) where
    pub after_super :
        Laid b0 b1 b2 x s1 s2 s3 s4 s5 s6 → (k p : ℕ) → k ≢ b0 → K.view s6 k p ≡ K.view s5 k p
    after_super laid k p other = laid.super k p ∙ rw (==_ne k b0 other) refl

    pub after_anchors :
        Laid b0 b1 b2 x s1 s2 s3 s4 s5 s6 → (k p : ℕ) → 2 < k → K.view s5 k p ≡ K.view s3 k p
    after_anchors laid k p behind =
        laid.second.kept k p (λ e. omega arith) ∙ laid.first.kept k p (λ e. omega arith)

    pub super_bytes :
        Laid b0 b1 b2 x s1 s2 s3 s4 s5 s6
        → Apart b0 b1 b2
        → (p : ℕ) → K.view s6 b0 p ≡ written T K B P P.super_codec x p
    super_bytes laid apart p =
        let still : K.view s5 b0 p ≡ 0xff =
          after_anchors laid b0 p apart.behind0
          ∙ laid.upper.kept b0 p apart.ends
          ∙ laid.middle.kept b0 p apart.first_two
          ∙ laid.erased p in
        laid.super b0 p ∙ rw (==_refl b0, still) refl

    pub middle_Holds :
        (g : Geometry)
        → HasSectors P g
        → Laid b0 b1 b2 x s1 s2 s3 s4 s5 s6
        → Apart b0 b1 b2
        → Holds T K B P g (K.view s6) b1 (middle_link b0)
    middle_Holds g has laid apart =
        kept-Holds T K B P g (K.view s2) (K.view s6) b1 (middle_link b0)
          (λ p.
            after_super laid b1 p (λ e. apart.first_two (sym e))
            ∙ after_anchors laid b1 p apart.behind1
            ∙ laid.upper.kept b1 p apart.last_two)
          (put-Holds T K B P g s1 s2 b1 (middle_link b0) has laid.middle)

    pub upper_Holds :
        (g : Geometry)
        → HasSectors P g
        → Laid b0 b1 b2 x s1 s2 s3 s4 s5 s6
        → Apart b0 b1 b2
        → Holds T K B P g (K.view s6) b2 (upper_link b0 b1)
    upper_Holds g has laid apart =
        kept-Holds T K B P g (K.view s3) (K.view s6) b2 (upper_link b0 b1)
          (λ p.
            after_super laid b2 p (λ e. apart.ends (sym e)) ∙ after_anchors laid b2 p apart.behind2)
          (put-Holds T K B P g s2 s3 b2 (upper_link b0 b1) has laid.upper)

    pub first_Holds :
        (g : Geometry)
        → HasSectors P g
        → Laid b0 b1 b2 x s1 s2 s3 s4 s5 s6
        → Apart b0 b1 b2
        → Holds T K B P g (K.view s6) 1 (anchor_link (next_link b0 b1 b2))
    first_Holds g has laid apart =
        let l = anchor_link (next_link b0 b1 b2) in
        let behind = apart.behind0 in
        kept-Holds T K B P g (K.view s4) (K.view s6) 1 l
          (λ p. after_super laid 1 p (λ e. omega arith) ∙ laid.second.kept 1 p (λ e. omega arith))
          (put-Holds T K B P g s3 s4 1 l has laid.first)

    pub second_Holds :
        (g : Geometry)
        → HasSectors P g
        → Laid b0 b1 b2 x s1 s2 s3 s4 s5 s6
        → Apart b0 b1 b2
        → Holds T K B P g (K.view s6) 2 (second_link (next_link b0 b1 b2))
    second_Holds g has laid apart =
        let l = second_link (next_link b0 b1 b2) in
        let behind = apart.behind0 in
        kept-Holds T K B P g (K.view s5) (K.view s6) 2 l
          (λ p. after_super laid 2 p (λ e. omega arith))
          (put-Holds T K B P g s4 s5 2 l has laid.second)

    pub Laid-Chain :
        (g : Geometry)
        → HasSectors P g
        → ((l : SuperBlockLink) → IsWords l → P.link_codec.Fits l)
        → Laid b0 b1 b2 x s1 s2 s3 s4 s5 s6
        → Apart b0 b1 b2
        → b0 < block_index_invalid
        → b1 < block_index_invalid
        → b2 < block_index_invalid
        → P.link_of x ≡ set_type first_link BlockType.super_block
        → (c : Chain T K B P g (K.view s6)) × (c.middle.chained_block ≡ b0)
    unfolding new_link new_head fill_magic magic_valid is_newer
    Laid-Chain g has fits laid apart real0 real1 real2 link =
        let linked = λ (type : BlockType) (t b : ℕ) (small : t < 2 ^ 32) (b_small : b < 2 ^ 32).
          fits (set_timestamp (record (set_type first_link type) { chained_block = b }) t)
            (made-IsWords type t b small b_small) in
        (
          record {
            first = anchor_link (next_link b0 b1 b2);
            second = second_link (next_link b0 b1 b2);
            upper = upper_link b0 b1;
            middle = middle_link b0;
            last = set_type first_link BlockType.super_block;
            first_link = record {
              fits = linked BlockType.anchor 2 b2 (omega arith) (omega arith);
              good = refl;
            };
            second_link = record {
              fits = linked BlockType.anchor 1 b2 (omega arith) (omega arith);
              good = refl;
            };
            upper_link = record {
              fits = linked BlockType.super_block_link 3 b1 (omega arith) (omega arith);
              good = refl;
            };
            middle_link = record {
              fits = linked BlockType.super_block_link 4 b0 (omega arith) (omega arith);
              good = refl;
            };
            last_link = record {
              fits = linked BlockType.super_block 5 block_index_invalid (omega arith) (omega arith);
              good = refl;
            };
            first_holds = first_Holds g has laid apart;
            second_holds = second_Holds g has laid apart;
            upper_holds = upper_Holds g has laid apart;
            middle_holds = middle_Holds g has laid apart;
            last_holds =
                subst (λ (l : SuperBlockLink). Holds T K B P g (K.view s6) b0 l) link
                  (super-Holds T K B P g (K.view s6) b0 x has (super_bytes laid apart));
            start_valid = λ e. omega arith;
            upper_valid = λ e. omega arith;
            middle_valid = λ e. omega arith;
            ends = refl;
            upper_newer = refl;
            middle_newer = refl;
            last_newer = refl;
          },
          refl,
        )
