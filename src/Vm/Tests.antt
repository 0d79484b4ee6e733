-- ===== src/Vm/Tests.antt =====
-- A directory at 0x80400000 without tables, and two free pages behind it.
use modificacion_sistema_ope.Base.{
  ℕ, ◌+◌, ◌*◌, ◌<◌, ◌≡◌, refl, arith, sym, ap, ◌∙◌, true, false, [], ◌∷◌, update,
}
use mathlib.Core.Bool.{false≢true}
use modificacion_sistema_ope.Kalloc.{Kmem}
use modificacion_sistema_ope.Kalloc.FreeList.{IsPage}
use modificacion_sistema_ope.Vm.Defs.{pdx, is_present, mappages}
use modificacion_sistema_ope.Vm.Tables.{pte_of, Tables}
use modificacion_sistema_ope.Vm.Map.{Maps, mappages-Maps}

abbrev memory : Kmem
memory = record {
  word = update (λ a. 0) 0x80401000 0x80402000;
  freelist = 0x80401000;
  use_lock = true;
}

dir_page : IsPage 0x80100000 0x80400000
dir_page = record {
  aligned = refl;
  above = omega arith;
  below = omega arith;
  nonzero = λ z. absurd (omega (arith, z));
}

no_table : (i : ℕ) → i < 1024 → memory.word (0x80400000 + 4 * i) ≡ 0
no_table i h = ground (arith, h)

absent : (i : ℕ) → i < 1024 → is_present (memory.word (0x80400000 + 4 * i)) ≡ false
absent i h = ap is_present (no_table i h)

memory-Tables : Tables 0x80100000 0x80400000 memory (0x80401000 ∷ 0x80402000 ∷ [])
memory-Tables = record {
  holds = record {
    chain = (refl, (refl, refl));
    valid = (
      record {
        aligned = refl;
        above = omega arith;
        below = omega arith;
        nonzero = λ z. absurd (omega (arith, z));
      },
      (
        record {
          aligned = refl;
          above = omega arith;
          below = omega arith;
          nonzero = λ z. absurd (omega (arith, z));
        },
        tt,
      ),
    );
    distinct = ((λ z. absurd (omega (arith, z)), tt), (tt, tt));
  };
  small = (omega arith, (omega arith, tt));
  dir = dir_page;
  dir_own = (λ z. absurd (omega (arith, z)), (λ z. absurd (omega (arith, z)), tt));
  own = λ i h p. absurd (false≢true (sym (absent i h) ∙ p));
  apart = λ i j hi hj p q e. absurd (false≢true (sym (absent i hi) ∙ p));
}

nothing : (u : ℕ) → is_present (pte_of memory.word 0x80400000 u) ≡ false
unfolding pte_of
nothing u = ground (arith, absent (pdx u) (omega arith))

-- 0x1800 bytes from 0x1234 on, which touch two pages.
mappages-Maps_example :
    Maps 0x80100000 0x80400000 2 0x1000 0x300000 6 memory
      (mappages 0x80400000 0x1234 0x1800 0x300000 6 memory)
mappages-Maps_example =
    mappages-Maps 0x80100000 0x80400000 0x1234 0x1800 0x300000 6 memory
      (0x80401000 ∷ 0x80402000 ∷ []) memory-Tables (omega arith) (omega arith) (omega arith)
      (λ u l i. nothing u)
