-- ===== src/Str/Tests.antt =====
-- Runs of the string functions, and their theorems at small buffers.
use exp_memfs.Base.{length, take, pos, negsuc, ℕ, ◌%◌, ◌≡◌, refl, ◌↔◌, List, [], ◌∷◌, arith}
use exp_memfs.Str.{strlen, strnlen, strcpy, strcat, strncpy, strcmp, strncmp, Mem, memset, memcpy}
use exp_memfs.Str.Compare.{text, strlen-strnlen-strcmp-strncmp}
use exp_memfs.Str.Copy.{strcpy-strcat-strncpy}
use exp_memfs.Str.Block.{memset_and_memcpy}

-- "ram" in a buffer with stale bytes behind the NUL, and "rat".
abbrev ram_text : List ℕ
ram_text = b'r' ∷ b'a' ∷ b'm' ∷ 0 ∷ 7 ∷ []

abbrev rat_text : List ℕ
rat_text = b'r' ∷ b'a' ∷ b't' ∷ []

abbrev buffer : List ℕ
buffer = b'/' ∷ 0 ∷ 9 ∷ 9 ∷ 9 ∷ 9 ∷ []

abbrev counting : Mem
counting x = x % 256

strcmp-ram_rat : strcmp ram_text rat_text ≡ negsuc 6
unfolding strcmp
strcmp-ram_rat = refl

strncmp-ram_rat : strncmp ram_text rat_text 2 ≡ pos 0
unfolding strncmp
strncmp-ram_rat = refl

-- Overlapping, from the high end.
memcpy-overlap : memcpy counting 12 10 5 16 ≡ 14
unfolding memcpy
memcpy-overlap = refl

strlen-strnlen-strcmp-strncmp_example :
    (strlen ram_text ≡ 3)
    × (strnlen ram_text 2 ≡ 2)
    × ((strcmp ram_text rat_text ≡ pos 0) ↔ (text ram_text ≡ text rat_text))
    × ((strncmp ram_text rat_text 2 ≡ pos 0) ↔ (take 2 (text ram_text) ≡ take 2 (text rat_text)))
strlen-strnlen-strcmp-strncmp_example = strlen-strnlen-strcmp-strncmp ram_text rat_text 2

strcpy-strcat-strncpy_example :
    (text (strcpy buffer ram_text) ≡ b'r' ∷ b'a' ∷ b'm' ∷ [])
    × (length (strcpy buffer ram_text) ≡ 6)
    × (text (strcat buffer ram_text) ≡ b'/' ∷ b'r' ∷ b'a' ∷ b'm' ∷ [])
    × (strncpy buffer ram_text 5 ≡ b'r' ∷ b'a' ∷ b'm' ∷ 0 ∷ 0 ∷ 9 ∷ [])
strcpy-strcat-strncpy_example =
    strcpy-strcat-strncpy buffer buffer buffer ram_text 5 (omega arith) (omega arith) (omega arith)

memset_and_memcpy_example : (memset counting 10 300 4 12 ≡ 44) × (memcpy counting 12 10 5 12 ≡ 10)
memset_and_memcpy_example = memset_and_memcpy counting 10 300 4 12 10 5 12 (omega arith)
