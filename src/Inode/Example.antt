-- ===== src/Inode/Example.antt =====
-- A disk of 30 blocks whose map is block 2, with a file of three bytes in block 5.
use modificacion_sistema_ope.Base.{
  ℕ, zero, suc, ◌<◌, ◌/◌, ◌≡◌, ◌≢◌, refl, arith, sym, ◌∙◌, ap, update, ◌==◌, if◌then◌else◌,
  ℕ_discrete,
}
use modificacion_sistema_ope.Inode.Defs.{Superblock, Blocks, Inode}
use modificacion_sistema_ope.Inode.Alloc.{used, IsMap}
use modificacion_sistema_ope.Inode.Slots.{slot, index, Wf}
use modificacion_sistema_ope.Inode.Read.{Mapped}

abbrev pub disk : Superblock
disk = record { size = 30; bmapstart = 2 }

-- Blocks 0, 1, 2 and 5 are in use.
abbrev pub blocks : Blocks
blocks = update (λ b o. 0) 2 (update (λ o. 0) 0 39)

abbrev pub file : Inode
file = record { size = 3; addrs = update (λ k. 0) 0 5 }

file_slot : (k : ℕ) → slot file blocks k ≡ (if k == 0 then 5 else 0)
unfolding slot
file_slot k = ground arith

first_used : (b : ℕ) → b < 3 → used disk blocks b ≢ 0
first_used zero h z = absurd (omega (arith, z))
first_used (suc zero) h z = absurd (omega (arith, z))
first_used (suc (suc zero)) h z = absurd (omega (arith, z))
first_used (suc (suc (suc b))) h z = absurd (omega (arith, h))

blocks-IsMap : IsMap disk 3 blocks
blocks-IsMap = record { below = λ b h. omega (arith, h); taken = first_used }

only_slot : (k : ℕ) → slot file blocks k ≢ 0 → k ≡ 0
only_slot k n = elim (ℕ_discrete k 0) [
  | yes e ↦ e
  | no ne ↦ absurd (n (file_slot k ∙ ground (arith, ne)))
]

five : (k : ℕ) → slot file blocks k ≢ 0 → slot file blocks k ≡ 5
five k n = file_slot k ∙ ground (arith, only_slot k n)

pub file-Wf : Wf disk 3 file blocks
file-Wf = record {
  is_map = blocks-IsMap;
  inside = λ k l n. (omega (arith, five k n), omega (arith, five k n));
  taken = λ k l n z. absurd (omega (arith, (sym (ap (used disk blocks) (five k n)) ∙ z)));
  apart = λ j k a b n e. only_slot j n ∙ sym (only_slot k (λ z. n (e ∙ z)));
}

pub file-Mapped : Mapped file blocks 0 3
unfolding slot index
file-Mapped o lo hi z =
    let first : o / 512 ≡ 0 = omega (arith, hi) in
    let five_there : slot file blocks (index (o / 512)) ≡ 5 =
      ap (λ x. slot file blocks (index x)) first ∙ refl in
    absurd (omega (arith, five_there, z))

-- The file as a directory with one entry, without an inode.
abbrev pub directory : Inode
directory = record file { size = 16 }

pub directory-Wf : Wf disk 3 directory blocks
unfolding slot
directory-Wf = record {
  is_map = file-Wf.is_map;
  inside = file-Wf.inside;
  taken = file-Wf.taken;
  apart = file-Wf.apart;
}

pub directory-Mapped : Mapped directory blocks 0 16
unfolding slot index
directory-Mapped o lo hi z =
    let first : o / 512 ≡ 0 = omega (arith, hi) in
    let five_there : slot directory blocks (index (o / 512)) ≡ 5 =
      ap (λ x. slot directory blocks (index x)) first ∙ refl in
    absurd (omega (arith, five_there, z))
