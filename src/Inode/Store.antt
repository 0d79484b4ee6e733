-- ===== src/Inode/Store.antt =====
-- Bytes written in a block that a file has.
use modificacion_sistema_ope.Base.{
  ℕ, ◌+◌, ◌-◌, ◌/◌, ◌%◌, ◌<◌, ◌≤◌, ◌≡◌, ◌≢◌, arith, sym, ap, ap₂, ◌∙◌, update, update_self,
  update_ne, ◌==◌, ltb, if◌then◌else◌, ℕ_discrete,
}
use modificacion_sistema_ope.Inode.Defs.{Superblock, Blocks, Inode, bsize, get_word}
use modificacion_sistema_ope.Inode.Alloc.{used, used-update, update-IsMap, free, free-same}
use modificacion_sistema_ope.Inode.Slots.{slot, index, index_lt, index_ne, index_inj, content, Wf}

-- The bytes of one block.
pub content_at :
    (ip : Inode) (s : Blocks) (off i : ℕ)
    → slot ip s (index (off / bsize)) ≢ 0
    → off % bsize + i < bsize
    → content ip s (off + i) ≡ s (slot ip s (index (off / bsize))) (off % bsize + i)
unfolding content
content_at ip s off i nz h =
    let q : (off + i) / bsize ≡ off / bsize = omega (arith, h) in
    let r : (off + i) % bsize ≡ off % bsize + i = omega (arith, h) in
    let same : slot ip s (index ((off + i) / bsize)) ≡ slot ip s (index (off / bsize)) =
      ap (λ x. slot ip s (index x)) q in
    let nz' : slot ip s (index ((off + i) / bsize)) ≢ 0 = λ z. nz (sym same ∙ z) in
    let e : content ip s (off + i) ≡ s (slot ip s (index ((off + i) / bsize))) ((off + i) % bsize) =
      ground (arith, nz') in
    e ∙ ap₂ s same r

module _ (sb : Superblock) (start : ℕ) (ip : Inode) (s : Blocks) (w : Wf sb start ip s) (bn : ℕ)
    (h : bn < 140) (nz : slot ip s (index bn) ≢ 0) (f : ℕ → ℕ) where
  abbrev stored : Blocks
  stored = update s (slot ip s (index bn)) f

  indirect_other : ip.addrs 12 ≢ slot ip s (index bn)
  unfolding slot
  indirect_other e = index_ne bn (w.apart (index bn) 12 (index_lt bn h) (omega arith) nz (sym e))

  pub store_slot : (j : ℕ) → slot ip stored j ≡ slot ip s j
  unfolding slot
  store_slot j =
      let q : get_word (stored (ip.addrs 12)) (j - 13) ≡ get_word (s (ip.addrs 12)) (j - 13) =
        ap (λ g. get_word g (j - 13))
          (update_ne s (slot ip s (index bn)) f (ip.addrs 12) indirect_other) in
      ap (λ (x : ℕ). if ltb j 13 then ip.addrs j else if ip.addrs 12 == 0 then 0 else x) q

  low : start ≤ slot ip s (index bn)
  low = (w.inside (index bn) (index_lt bn h) nz).0

  same_use : (j : ℕ) → j < sb.size → used sb stored j ≡ used sb s j
  same_use j l = used-update sb start s (slot ip s (index bn)) f j w.is_map low l

  pub store-Wf : Wf sb start ip stored
  store-Wf = record {
    is_map =
        update-IsMap sb start s (slot ip s (index bn)) f w.is_map low
          (omega (arith, low, (w.inside (index bn) (index_lt bn h) nz).1));
    inside = λ k l n.
        let i = w.inside k l (λ z. n (store_slot k ∙ z)) in
        (omega (arith, i.0, store_slot k), omega (arith, i.1, store_slot k));
    taken = λ k l n z.
        let n' : slot ip s k ≢ 0 = λ z. n (store_slot k ∙ z) in
        w.taken k l n' (
          sym (same_use (slot ip s k) (w.inside k l n').1)
          ∙ ap (used sb stored) (sym (store_slot k))
          ∙ z);
    apart = λ j k hj hk n e.
        w.apart j k hj hk (λ z. n (store_slot j ∙ z)) (sym (store_slot j) ∙ e ∙ store_slot k);
  }

  pub store-free : free sb sb.size stored ≡ free sb sb.size s
  store-free = free-same sb sb.size s stored same_use

  pub store_content :
      (o : ℕ)
      → o < 71680
      → content ip stored o ≡ (if o / bsize == bn then f (o % bsize) else content ip s o)
  unfolding content
  store_content o l = elim (ℕ_discrete (o / bsize) bn) [
    | yes e ↦
        let here : slot ip stored (index (o / bsize)) ≡ slot ip s (index bn) =
          store_slot (index (o / bsize)) ∙ ap (λ x. slot ip s (index x)) e in
        let byte : stored (slot ip stored (index (o / bsize))) (o % bsize) ≡ f (o % bsize) =
          ap (λ g. g (o % bsize)) (ap stored here ∙ update_self s (slot ip s (index bn)) f) in
        let n : slot ip stored (index (o / bsize)) ≢ 0 = λ z. nz (sym here ∙ z) in
        ground (arith, byte, n, e)
    | no ne ↦
        let same : slot ip stored (index (o / bsize)) ≡ slot ip s (index (o / bsize)) =
          store_slot (index (o / bsize)) in
        elim (ℕ_discrete (slot ip s (index (o / bsize))) 0) [
          | yes z ↦ ground (arith, same ∙ z, z, ne)
          | no n ↦
              let other : slot ip s (index (o / bsize)) ≢ slot ip s (index bn) = λ q. ne (
                index_inj (o / bsize) bn (
                  w.apart (index (o / bsize)) (index bn) (index_lt (o / bsize) (omega arith))
                    (index_lt bn h) n q)) in
              let byte : stored (slot ip stored (index (o / bsize))) (o % bsize)
                  ≡ s (slot ip s (index (o / bsize))) (o % bsize) =
                ap (λ g. g (o % bsize))
                  (ap stored same
                    ∙ update_ne s (slot ip s (index bn)) f (slot ip s (index (o / bsize))) other) in
              let n' : slot ip stored (index (o / bsize)) ≢ 0 = λ z. n (sym same ∙ z) in
              ground (arith, byte, n, n', ne)
        ]
  ]
