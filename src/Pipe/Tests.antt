-- ===== src/Pipe/Tests.antt =====
-- The pipe's theorems at concrete pipes, and a run across the wrap of the counters.
use modificacion_sistema_ope.Base.{
  ◌-◌, ◌^◌, ◌≡◌, refl, arith, List, [], ◌∷◌, true, false, replicate,
}
use modificacion_sistema_ope.Pipe.Defs.{
  Pipe, pipe_size, returns, nread_chan, nwrite_chan, pipewrite, piperead, pipeclose, is_full,
  is_empty, copy_out,
}
use modificacion_sistema_ope.Pipe.Window.{IsValid, used}
use modificacion_sistema_ope.Pipe.Spec.{Op, write, read, close, wrote, got, closed, run, pipe_run}
use modificacion_sistema_ope.Pipe.Refine.{view, run_refines}
use modificacion_sistema_ope.Pipe.Wakeup.{
  Waiting, NoneMissed, after, after_all, none_missed, killed_write-misses,
}

-- Both counters are about to wrap.
abbrev late : Pipe
late = record {
  buf = λ _. 0;
  nread = 2 ^ 32 - 1;
  nwrite = 2 ^ 32 - 1;
  readopen = true;
  writeopen = true;
}

late-IsValid : IsValid late
late-IsValid = omega arith

abbrev script : List Op
script =
    write false 3 (7 ∷ 8 ∷ 9 ∷ []) ∷ read false 2 ∷ close true ∷ read false 9 ∷ close false ∷ []

late_runs :
    pipe_run late script
    ≡ wrote (returns 3) (nread_chan ∷ [])
      ∷ got (returns 2) (7 ∷ 8 ∷ []) (nwrite_chan ∷ [])
      ∷ closed (nread_chan ∷ []) false
      ∷ got (returns 1) (9 ∷ []) (nwrite_chan ∷ [])
      ∷ closed (nwrite_chan ∷ []) true
      ∷ []
unfolding pipewrite piperead pipeclose is_full is_empty copy_out
late_runs = refl

run_refines_example : pipe_run late script ≡ run (view late) script
run_refines_example = run_refines late script late-IsValid

-- A reader sleeps on the empty pipe.
abbrev sleeping : Waiting
sleeping = record { pipe = late; readers = true; writers = false }

sleeping-NoneMissed : NoneMissed sleeping
unfolding is_empty
sleeping-NoneMissed = record {
  valid = omega arith;
  readers = λ h. (refl, refl, refl);
  writers = λ h. cc;
}

none_missed_example : NoneMissed (after_all sleeping (write false 1 (7 ∷ []) ∷ read false 1 ∷ []))
unfolding pipewrite is_full
none_missed_example =
    none_missed (write false 1 (7 ∷ []) ∷ read false 1 ∷ []) sleeping (refl, (refl, tt))
      sleeping-NoneMissed

killed_write-misses_example :
    ((after sleeping (write true 513 (replicate 513 7))).readers ≡ true)
    × (used (after sleeping (write true 513 (replicate 513 7))).pipe ≡ pipe_size)
killed_write-misses_example =
    killed_write-misses 513 (replicate 513 7) sleeping sleeping-NoneMissed refl (omega arith)
