-- ===== src/Dir/Link.antt =====
-- dirlink adds one entry.
use modificacion_sistema_ope.Base.{
  ℕ, ◌+◌, ◌-◌, ◌*◌, ◌/◌, ◌%◌, ◌<◌, ◌≤◌, ◌≡◌, refl, arith, sym, ap, ap₂, ◌∙◌, Bool, true, false, not,
  ◌&&◌, Option, none, some, ◌==◌, ltb, leb, if◌then◌else◌,
}
use modificacion_sistema_ope.Inode.{Superblock, Blocks, Inode, Ran, ran, panic, no_end}
use modificacion_sistema_ope.Inode.Alloc.{free}
use modificacion_sistema_ope.Inode.Slots.{content, Wf}
use modificacion_sistema_ope.Inode.Bmap.{need}
use modificacion_sistema_ope.Inode.Read.{Mapped}
use modificacion_sistema_ope.Inode.Wrote.{touched}
use modificacion_sistema_ope.Inode.Write.{writei_lem}
use modificacion_sistema_ope.Dir.Defs.{same_name, inum_of, name_of, new_entry, dirlookup, dirlink}
use modificacion_sistema_ope.Dir.Names.{same_from-agree, inum_of-new, same_name-new}
use modificacion_sistema_ope.Dir.Search.{
  entry_at, is_for, search, search-agree, first_free, dirlookup_lem, first_free_lem,
}
use modificacion_sistema_ope.Dir.Entries.{IsFree, first_free-IsFree, search_new, search_kept}

abbrev first_of : Option (ℕ × ℕ) → Ran (Option (ℕ × ℕ) × Inode × Blocks) → Option (ℕ × ℕ)
first_of o (ran r) = r.0
first_of o panic = o
first_of o no_end = o

-- The bytes with the new entry at `off`.
abbrev with_entry : (ℕ → ℕ) → ℕ → (ℕ → ℕ) → ℕ → ℕ → ℕ
with_entry c off name inum o =
    if leb off o && ltb o (off + 16) then new_entry name inum (o - off) else c o

before :
    (c : ℕ → ℕ) (off : ℕ) (name : ℕ → ℕ) (inum o : ℕ) → o < off → with_entry c off name inum o ≡ c o
before c off name inum o h = ground (arith, h)

behind :
    (c : ℕ → ℕ) (off : ℕ) (name : ℕ → ℕ) (inum o : ℕ)
    → off + 16 ≤ o
    → with_entry c off name inum o ≡ c o
behind c off name inum o h = ground (arith, h)

inside :
    (c : ℕ → ℕ) (off : ℕ) (name : ℕ → ℕ) (inum j : ℕ)
    → j < 16
    → with_entry c off name inum (off + j) ≡ new_entry name inum j
inside c off name inum j h =
    let q : off + j - off ≡ j = omega arith in ground (arith, h, ap (new_entry name inum) q)

inum-with_entry :
    (c : ℕ → ℕ) (off : ℕ) (name : ℕ → ℕ) (inum : ℕ)
    → inum < 65536
    → inum_of (entry_at (with_entry c off name inum) off) ≡ inum
inum-with_entry c off name inum h =
    ap₂ (λ (x y : ℕ). x + 256 * y) (inside c off name inum 0 (omega arith))
      (inside c off name inum 1 (omega arith))
    ∙ inum_of-new name inum h

is_for-with_entry :
    (c : ℕ → ℕ) (off : ℕ) (name : ℕ → ℕ) (inum : ℕ) (other : ℕ → ℕ)
    → 0 < inum
    → inum < 65536
    → is_for (with_entry c off name inum) other off
      ≡ same_name other (name_of (new_entry name inum))
unfolding is_for
is_for-with_entry c off name inum other pos h =
    let cc : ℕ → ℕ = with_entry c off name inum in
    let t : same_name other (name_of (entry_at cc off))
        ≡ same_name other (name_of (new_entry name inum)) =
      same_from-agree 14 0 other (name_of (entry_at cc off)) (name_of (new_entry name inum))
        (λ j l k. inside c off name inum (2 + j) (omega arith)) in
    let nz : not (inum == 0) ≡ true = ground (arith, pos) in
    ap₂ (λ (i : ℕ) (b : Bool). not (i == 0) && b) (inum-with_entry c off name inum h) t
    ∙ ap (λ (b : Bool). b && same_name other (name_of (new_entry name inum))) nz

abbrev found_in : Inode → Blocks → Option (ℕ × ℕ) → Ran (Option (ℕ × ℕ) × Inode × Blocks)
found_in dp s x = ran (x, dp, s)

ran_first :
    {x y : Option (ℕ × ℕ)} {dp : Inode} {s : Blocks} → found_in dp s x ≡ found_in dp s y → x ≡ y
ran_first {x} e = ap (first_of x) e

two : (off : ℕ) → touched off 16 ≤ 2
two off = ground arith

module _ (sb : Superblock) (start : ℕ) where
  -- After dirlink: the name is found, with its inode, and every other name as before.
  abbrev pub Links : (ℕ → ℕ) → ℕ → Inode → Blocks → Type 0
  Links name inum dp s =
      (dp' : Inode) × (s' : Blocks) × (off : ℕ) × (dirlink sb dp name inum s
        ≡ ran (some 0, dp', s'))
      × Wf sb start dp' s'
      × Mapped dp' s' 0 dp'.size
      × (dp'.size % 16 ≡ 0)
      × (dirlookup sb dp' name s' ≡ ran (some (inum, off), dp', s'))
      × ((other : ℕ → ℕ) (found : Option (ℕ × ℕ))
          → same_name other (name_of (new_entry name inum)) ≡ false
          → dirlookup sb dp other s ≡ ran (found, dp, s)
          → dirlookup sb dp' other s' ≡ ran (found, dp', s'))

  -- On a well-formed directory without holes of whole entries, shorter than MAXFILE blocks, where
  -- dirlookup does not find the name and two blocks and one for an indirect block are free, dirlink
  -- of the name with an inode number that is not 0 and fits a ushort returns 0: dirlookup of the
  -- name then gives that number, dirlookup of every name that differs from it in its first DIRSIZ
  -- bytes gives what it gave before, and the directory stays well formed, without holes and of
  -- whole entries.
  pub dirlink-Links :
      (name : ℕ → ℕ) (inum : ℕ) (dp : Inode) (s : Blocks)
      → Wf sb start dp s
      → Mapped dp s 0 dp.size
      → sb.size ≤ 4294967296
      → dp.size % 16 ≡ 0
      → dp.size + 16 ≤ 71680
      → need dp + 2 ≤ free sb sb.size s
      → 0 < inum
      → inum < 65536
      → dirlookup sb dp name s ≡ ran (none, dp, s)
      → Links name inum dp s
  unfolding dirlink
  dirlink-Links name inum dp s w m big h hs room pos hi absent =
      let n : ℕ = dp.size / 16 in
      let c : ℕ → ℕ = content dp s in
      let off : ℕ = first_free n c 0 in
      let size : dp.size ≡ 16 * n = omega (arith, h) in
      let f : IsFree n c 0 off = first_free-IsFree n c 0 refl in
      let slot_found = first_free_lem sb dp s (omega (arith, hs)) m n size in
      let looked = dirlookup_lem sb dp s (omega (arith, hs)) m n in
      let (dp', s', e, w', size', m', left, bytes) =
        writei_lem sb start dp (new_entry name inum) off 16 s w m big
          (omega (arith, f.to_end, size)) (omega (arith, hs)) (omega (arith, f.to_end, size, hs))
          (omega (arith, room, two off)) in
      let k : ℕ = dp'.size / 16 in
      let c' : ℕ → ℕ = content dp' s' in
      let cc : ℕ → ℕ = with_entry c off name inum in
      let k_size : dp'.size ≡ 16 * k = omega (arith, size', size, f.aligned, f.to_end) in
      let same_search : (other : ℕ → ℕ) → search k c' other 0 ≡ search k cc other 0 = λ other.
        search-agree k c' cc other 0
          (λ o l q. bytes o (omega (arith, q, k_size, size', hs, f.to_end, size))) in
      let looked' : (other : ℕ → ℕ)
          → dirlookup sb dp' other s' ≡ ran (search k cc other 0, dp', s') =
        λ other.
          dirlookup_lem sb dp' s' (omega (arith, size', hs, f.to_end, size)) m' k other k_size
          ∙ ap (λ x. ran (x, dp', s')) (same_search other) in
      let none_there : search n c name 0 ≡ none = ran_first (sym (looked name size) ∙ absent) in
      let new : is_for cc name off ≡ true =
        is_for-with_entry c off name inum name pos hi ∙ same_name-new name inum in
      let found : search k cc name 0 ≡ some (inum, off) =
        search_new c cc off (before c off name inum) (behind c off name inum) k n 0 name refl f
          (omega (arith, k_size, size')) none_there new
        ∙ ap (λ x. some (x, off)) (inum-with_entry c off name inum hi) in
      (
        dp',
        s',
        off,
        ground (arith, absent, slot_found, e),
        w',
        m',
        omega (arith, k_size),
        looked' name ∙ ap (λ x. ran (x, dp', s')) found,
        λ other r differs was.
            let kept : search k cc other 0 ≡ search n c other 0 =
              search_kept c cc off (before c off name inum) (behind c off name inum) k n 0 other
                refl f.aligned (omega (arith, k_size, size', size)) f.to_end f.unused
                (is_for-with_entry c off name inum other pos hi ∙ differs) in
            looked' other
            ∙ ap (λ x. ran (x, dp', s')) (kept ∙ ran_first (sym (looked other size) ∙ was)),
      )
