-- ===== src/Common/Spaces.antt =====
-- `s.trim()` and `s.includes(p)`, and the UTF-16 units of a text.
use Prim.Native.Nat.{ℕ, ◌+◌, ◌-◌, ◌/◌, ◌%◌}
use mathlib.Core.Bool.{Bool, ◌||◌, ◌&&◌}
use mathlib.Core.List.{List, [], ◌∷◌, reverse}
use lsmkv_enterprise.Common.Tests.{ltb, leb, nat_beq, if◌then◌else◌}
use lsmkv_enterprise.Common.Texts.{Text, starts_with}

-- The white space and the line terminators of the language.
abbrev is_space : ℕ → Bool
is_space c =
    (leb 9 c && leb c 13)
    || (nat_beq c 32
        || (nat_beq c 160
            || (nat_beq c 5760
                || ((leb 8192 c && leb c 8202)
                    || (nat_beq c 8232
                        || (nat_beq c 8233
                            || (nat_beq c 8239
                                || (nat_beq c 8287 || (nat_beq c 12288 || nat_beq c 65279)))))))))

trim_start : Text → Text
trim_start [] = []
trim_start (c ∷ s) = if is_space c then trim_start s else c ∷ s

unfoldable pub trim : Text → Text
unfolding trim_start
trim s = reverse (trim_start (reverse (trim_start s)))

-- What `charCodeAt` reads: a code point above 65535 is two units.
unfoldable pub utf16 : Text → List ℕ
utf16 [] = []
utf16 (c ∷ s) =
    let rest = utf16 s in
    if ltb c 65536
    then c ∷ rest
    else (55296 + (c - 65536) / 1024) ∷ (56320 + (c - 65536) % 1024) ∷ rest

-- `s.includes(p)`, with the needle first.
unfoldable pub contains : Text → Text → Bool
contains p [] = starts_with p []
contains p (c ∷ s) = starts_with p (c ∷ s) || contains p s
