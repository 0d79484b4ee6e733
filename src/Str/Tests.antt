-- ===== src/Str/Tests.antt =====
-- The string routines at concrete memories.
use modificacion_sistema_ope.Base.{◌+◌, ◌≡◌, refl, arith, ltb, leb, ◌&&◌, if◌then◌else◌, ◌==◌}
use modificacion_sistema_ope.Str.Defs.{Mem, memset, stosl, memmove, move_down}
use modificacion_sistema_ope.Str.Set.{memset_lem}
use modificacion_sistema_ope.Str.Move.{memmove_lem}
use modificacion_sistema_ope.Str.Compare.{Nonzero}

-- "abc" at 10, "abd" at 20.
abbrev text : Mem
text a =
    if a == 10
    then 97
    else if a == 11
    then 98
    else if a == 12
    then 99
    else if a == 20
    then 97
    else if a == 21
    then 98
    else if a == 22
    then 100
    else 0

memset_words : memset 4 0x1ff 8 text 11 ≡ 255
unfolding memset stosl
memset_words = refl

memset_lem_example : memset 4 7 8 text 11 ≡ (if leb 4 11 && ltb 11 (4 + 8) then 7 else text 11)
memset_lem_example = memset_lem 4 7 8 text 11

memmove_overlap : memmove 11 10 3 text 13 ≡ 99
unfolding memmove move_down
memmove_overlap = refl

memmove_lem_example :
    memmove 11 10 3 text 13 ≡ (if leb 11 13 && ltb 13 (11 + 3) then text (10 + 2) else text 13)
memmove_lem_example = memmove_lem 11 10 3 text 13

text-Nonzero : Nonzero text 10 3
text-Nonzero i h = ground arith
