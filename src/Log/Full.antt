-- ===== src/Log/Full.antt =====
-- The log that xv6-public/mkfs.c makes, of LOGSIZE blocks with its header, has no room for what
-- begin_op of xv6-public/log.c lets three calls write.
use modificacion_sistema_ope.Base.{
  ℕ, zero, suc, ◌+◌, ◌<◌, ◌≤◌, ◌≡◌, refl, arith, ap, ◌∙◌, subst, List, [], ◌∷◌, ◌++◌, some, none,
}
use modificacion_sistema_ope.Disk.{Io}
use modificacion_sistema_ope.Log.Defs.{
  log_size, begin_op, find_slot, absorb, log_write_tests, too_big,
}
use modificacion_sistema_ope.Log.Absorb.{find_slot-Found}
use modificacion_sistema_ope.Log.Space.{Call, idle, Calls, begin, test, store, Reach, booted, after}

module _ (io : Io) where
  -- A reachable state with `k` blocks in the header, the blocks 100, 101 and so on.
  record Filled (k : ℕ) (ops : List Call) : Type 0 where
    state : Calls
    reached : Reach 2 log_size io state
    calls : state.ops ≡ ops
    many : state.log.n ≡ k
    listed : (j : ℕ) → j < k → state.log.block j ≡ 100 + j
    active : 0 < state.log.outstanding
    size : state.log.size ≡ log_size

  not_found :
      (block : ℕ → ℕ) (k : ℕ)
      → ((j : ℕ) → j < k → block j ≡ 100 + j)
      → find_slot k 0 block (100 + k) ≡ k
  not_found block k listed =
      let f = find_slot-Found k 0 block (100 + k) k (omega arith) in
      let r = find_slot k 0 block (100 + k) in
      let none_found : r < k → ⊥ = λ h. absurd (omega (arith, f.hit h, listed r h)) in
      omega (arith, f.bound, none_found)

  one_more :
      (k left : ℕ) (xs ys : List Call)
      → k < 29
      → Filled k (xs ++ (idle (suc left) ∷ ys))
      → Filled (suc k) (xs ++ (idle left ∷ ys))
  unfolding absorb log_write_tests
  one_more k left xs ys h f =
      let c = f.state in
      let words = c.io.cache (100 + k) in
      let passes : log_write_tests c.log ≡ none = ground (arith, f.many, f.active, f.size, h) in
      let tested = after f.reached (test c xs ys left (100 + k) words f.calls passes) in
      let at : find_slot c.log.n 0 c.log.block (100 + k) ≡ k =
        ap (λ n. find_slot n 0 c.log.block (100 + k)) f.many ∙ not_found c.log.block k f.listed in
      record {
        state = _;
        reached = after tested (store _ xs ys left (100 + k) refl);
        calls = refl;
        many = ground (arith, at, f.many);
        listed = λ j l. ground (arith, at, f.listed j);
        active = f.active;
        size = f.size;
      }

  more :
      (m k left all : ℕ) (xs ys : List Call)
      → k + m ≤ 29
      → all ≡ m + left
      → Filled k (xs ++ (idle all ∷ ys))
      → Filled (k + m) (xs ++ (idle left ∷ ys))
  more zero k left all xs ys h e f =
      let same : all ≡ left = omega (arith, e) in
      subst (λ n. Filled n (xs ++ (idle left ∷ ys))) (omega arith)
        (subst (λ n. Filled k (xs ++ (idle n ∷ ys))) same f)
  more (suc m) k left all xs ys h e f =
      let next : all ≡ suc (m + left) = omega (arith, e) in
      subst (λ n. Filled n (xs ++ (idle left ∷ ys))) (omega arith)
        (more m (suc k) left (m + left) xs ys (omega (arith, h)) refl (
          one_more k (m + left) xs ys (omega (arith, h))
            (subst (λ n. Filled k (xs ++ (idle n ∷ ys))) next f)))

  three_calls : Filled 0 (idle 10 ∷ idle 10 ∷ idle 10 ∷ [])
  unfolding begin_op
  three_calls = record {
    state = _;
    reached =
        after (after (after (booted (λ _. 0)) (begin _ _ refl)) (begin _ _ refl)) (begin _ _ refl);
    calls = refl;
    many = refl;
    listed = λ j l. absurd (omega arith);
    active = omega arith;
    size = refl;
  }

  nearly_full : Filled 29 (idle 0 ∷ idle 0 ∷ idle 1 ∷ [])
  nearly_full = more 9 20 1 10 (idle 0 ∷ idle 0 ∷ []) [] (omega arith) refl (
      more 10 10 0 10 (idle 0 ∷ []) (idle 10 ∷ []) (omega arith) refl
        (more 10 0 0 10 [] (idle 10 ∷ idle 10 ∷ []) (omega arith) refl three_calls))

  -- On that log, three calls that keep to MAXOPBLOCKS reach a state where one may still write a
  -- block and its log_write panics.
  log_write_panics :
      (c : Calls) × Reach 2 log_size io c
      × (c.ops ≡ idle 0 ∷ idle 0 ∷ idle 1 ∷ [])
      × (log_write_tests c.log ≡ some too_big)
  unfolding log_write_tests
  log_write_panics =
      let f = nearly_full in (f.state, f.reached, f.calls, ground (arith, f.many, f.size))
