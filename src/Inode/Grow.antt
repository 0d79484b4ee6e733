-- ===== src/Inode/Grow.antt =====
-- The three places where bmap puts a fresh block of balloc.
use modificacion_sistema_ope.Base.{
  ℕ, ◌+◌, ◌-◌, ◌%◌, ◌<◌, ◌≤◌, ◌≡◌, ◌≢◌, refl, arith, sym, ap, ◌∙◌, update, update_self, update_ne,
  ◌==◌, if◌then◌else◌, ℕ_discrete,
}
use modificacion_sistema_ope.Inode.Defs.{
  Superblock, Blocks, Inode, bblock, bits_per_block, get_word, put_word, set_bit,
}
use modificacion_sistema_ope.Inode.Bits.{get_word-put_word}
use modificacion_sistema_ope.Inode.Alloc.{
  used, took, IsMap, fresh, used-took, used-took-IsMap, used-update, update-IsMap,
}
use modificacion_sistema_ope.Inode.Slots.{slot, Wf, Grown, start_pos}

module _ (sb : Superblock) (start : ℕ) where
  took_ne :
      (s : Blocks) (a b : ℕ)
      → IsMap sb start s
      → a < sb.size
      → start ≤ b
      → b ≢ a
      → took sb a s b ≡ s b
  took_ne s a b v ha hb ne =
      let s₁ : Blocks = update s (bblock sb a) (set_bit (s (bblock sb a)) (a % bits_per_block)) in
      let off : b ≢ bblock sb a = λ e. absurd (omega (arith, v.below a ha)) in
      update_ne s₁ a (λ o. 0) b ne
      ∙ update_ne s (bblock sb a) (set_bit (s (bblock sb a)) (a % bits_per_block)) b off

  took_self : (s : Blocks) (a : ℕ) → took sb a s a ≡ (λ o. 0)
  took_self s a =
      update_self (update s (bblock sb a) (set_bit (s (bblock sb a)) (a % bits_per_block))) a
        (λ o. 0)

  module _ (ip : Inode) (s : Blocks) (a : ℕ) (w : Wf sb start ip s) (u : used sb s a ≡ 0)
      (ha : a < sb.size) where
    low : start ≤ a
    low = fresh sb start s a w.is_map u

    -- The indirect block of a file that has one.
    indirect_ne : ip.addrs 12 ≢ 0 → ip.addrs 12 ≢ a
    unfolding slot
    indirect_ne nz e = w.taken 12 (omega arith) nz (ap (used sb s) e ∙ u)

    indirect_low : ip.addrs 12 ≢ 0 → start ≤ ip.addrs 12
    unfolding slot
    indirect_low nz = (w.inside 12 (omega arith) nz).0

    pub grow_direct :
        (k : ℕ)
        → k < 12
        → ip.addrs k ≡ 0
        → Grown sb start k a ip s (record ip { addrs = update ip.addrs k a }) (took sb a s)
    unfolding slot
    grow_direct k hk e =
        let block : ip.addrs 12 ≢ 0 → took sb a s (ip.addrs 12) ≡ s (ip.addrs 12) =
          λ nz. took_ne s a (ip.addrs 12) w.is_map ha (indirect_low nz) (indirect_ne nz) in
        record {
          empty = ground (arith, e);
          was_free = u;
          in_disk = ha;
          same_size = refl;
          is_map = used-took-IsMap sb start s a w.is_map ha u (omega (arith, low));
          slots = λ j l. elim (ℕ_discrete (ip.addrs 12) 0) [
            | yes z ↦ ground (arith, z)
            | no nz ↦
                let q : get_word (took sb a s (ip.addrs 12)) (j - 13)
                    ≡ get_word (s (ip.addrs 12)) (j - 13) =
                  ap (λ f. get_word f (j - 13)) (block nz) in
                ground (arith, q, nz)
          ];
          uses = λ j l. used-took sb start s a j w.is_map ha u l;
          rest = λ b l na n12. took_ne s a b w.is_map ha l na;
          zeroed = λ n o. ap (λ f. f o) (took_self s a);
        }

    pub grow_block :
        ip.addrs 12 ≡ 0
        → Grown sb start 12 a ip s (record ip { addrs = update ip.addrs 12 a }) (took sb a s)
    unfolding slot
    grow_block e =
        let nz : a ≢ 0 = λ z. absurd (omega (arith, low, start_pos sb start s a w.is_map ha)) in
        record {
          empty = e;
          was_free = u;
          in_disk = ha;
          same_size = refl;
          is_map = used-took-IsMap sb start s a w.is_map ha u (omega (arith, low));
          slots = λ j l.
              let q : get_word (took sb a s a) (j - 13) ≡ 0 =
                ap (λ f. get_word f (j - 13)) (took_self s a) in
              ground (arith, q, nz, e);
          uses = λ j l. used-took sb start s a j w.is_map ha u l;
          rest = λ b l na n12. took_ne s a b w.is_map ha l na;
          zeroed = λ n o. absurd (n refl);
        }

    pub grow_word :
        (bn : ℕ)
        → 12 ≤ bn
        → bn < 140
        → ip.addrs 12 ≢ 0
        → get_word (s (ip.addrs 12)) (bn - 12) ≡ 0
        → sb.size ≤ 4294967296
        → Grown sb start
            (bn + 1)
            a
            ip
            s
            ip
            (update (took sb a s) (ip.addrs 12) (put_word (took sb a s (ip.addrs 12)) (bn - 12) a))
    unfolding slot
    grow_word bn l h nz e big =
        let d : ℕ = ip.addrs 12 in
        let s₁ : Blocks = took sb a s in
        let m₁ : IsMap sb start s₁ =
          used-took-IsMap sb start s a w.is_map ha u (omega (arith, low)) in
        let g : ℕ → ℕ = put_word (s₁ d) (bn - 12) a in
        let old : s₁ d ≡ s d = took_ne s a d w.is_map ha (indirect_low nz) (indirect_ne nz) in
        let words : (j : ℕ) → get_word g j ≡ (if j == bn - 12 then a else get_word (s d) j) = λ j.
          get_word-put_word (s₁ d) (bn - 12) a j (omega arith)
          ∙ ap (λ (f : ℕ → ℕ). if j == bn - 12 then a else get_word f j) old in
        record {
          empty = ground (arith, e, nz, l);
          was_free = u;
          in_disk = ha;
          same_size = refl;
          is_map = update-IsMap sb start s₁ d g m₁ (indirect_low nz) (omega (arith, low));
          slots = λ j hj.
              let q : get_word (update s₁ d g d) (j - 13)
                  ≡ (if j - 13 == bn - 12 then a else get_word (s d) (j - 13)) =
                ap (λ f. get_word f (j - 13)) (update_self s₁ d g) ∙ words (j - 13) in
              ground (arith, q, nz, l);
          uses = λ j hj.
              used-update sb start s₁ d g j m₁ (indirect_low nz) hj
              ∙ used-took sb start s a j w.is_map ha u hj;
          rest = λ b hb na n12. update_ne s₁ d g b n12 ∙ took_ne s a b w.is_map ha hb na;
          zeroed = λ n o.
              ap (λ f. f o) (update_ne s₁ d g a (λ q. indirect_ne nz (sym q)) ∙ took_self s a);
        }
