-- ===== src/Str/Set.antt =====
-- memset, and its fast path by words.
use modificacion_sistema_ope.Base.{
  ℕ, zero, suc, ◌+◌, ◌*◌, ◌/◌, ◌%◌, ◌<◌, ◌≡◌, arith, ◌∙◌, update, ◌==◌, ltb, leb, ◌&&◌,
  if◌then◌else◌, Bool-cases, inl, inr,
}
use modificacion_sistema_ope.Str.Defs.{Mem, stosb, stosl, store_long, memset}

-- `b` on the `n` addresses from `dst` up, `m` elsewhere.
abbrev pub filled : ℕ → ℕ → ℕ → Mem → Mem
filled dst b n m a = if leb dst a && ltb a (dst + n) then b else m a

stosb_lem : (dst c n : ℕ) (m : Mem) (a : ℕ) → stosb dst c n m a ≡ filled dst (c % 256) n m a
unfolding stosb
stosb_lem dst c zero m a = ground arith
stosb_lem dst c (suc n) m a = stosb_lem (dst + 1) c n (update m dst (c % 256)) a ∙ ground arith

-- A word of four equal bytes.
bytes :
    (b : ℕ)
    → b < 256
    → (b * 0x01010101 % 256 ≡ b)
      × (b * 0x01010101 / 256 % 256 ≡ b)
      × (b * 0x01010101 / 65536 % 256 ≡ b)
      × (b * 0x01010101 / 16777216 % 256 ≡ b)
bytes b h = omega arith

store_long-filled :
    (b dst : ℕ) (m : Mem) (a : ℕ)
    → b < 256
    → store_long dst (b * 0x01010101) m a ≡ filled dst b 4 m a
store_long-filled b dst m a h = ground (arith, bytes b h)

stosl_lem :
    (b dst n : ℕ) (m : Mem) (a : ℕ)
    → b < 256
    → stosl dst (b * 0x01010101) n m a ≡ filled dst b (n * 4) m a
unfolding stosl
stosl_lem b dst zero m a h = ground arith
stosl_lem b dst (suc n) m a h =
    stosl_lem b (dst + 4) n (store_long dst (b * 0x01010101) m) a h
    ∙ ground (arith, store_long-filled b dst m a h)

-- memset stores the low byte of c at exactly the n addresses from dst up, whichever path it takes.
pub memset_lem :
    (dst c n : ℕ) (m : Mem) (a : ℕ)
    → memset dst c n m a ≡ (if leb dst a && ltb a (dst + n) then c % 256 else m a)
unfolding memset
memset_lem dst c n m a = elim (Bool-cases ((dst % 4 == 0) && (n % 4 == 0))) [
  | inl words ↦ rw words (stosl_lem (c % 256) dst (n / 4) m a (omega arith) ∙ ground arith)
  | inr odd ↦ rw odd (stosb_lem dst c n m a)
]
