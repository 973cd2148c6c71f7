-- ===== src/Prelude/Text.antt =====
-- Texts as JavaScript trims them, and their words.
use Prim.Native.String.{String}
use Prim.Native.Nat.{ℕ, suc}
use Prim.Native.Char.{Char, code}
use novelhub.Prelude.Tests.{leb, ◌==◌, if◌then◌else◌}
use mathlib.Core.Bool.{Bool, true, false, ◌&&◌, ◌||◌}

-- The white space and the line ends of ECMAScript.
abbrev pub is_space : Char → Bool
is_space c =
    let n = code c in
    leb 9 n && leb n 13
    || (n == 32
        || (n == 160
            || (n == 5760
                || (leb 8192 n && leb n 8202
                    || (n == 8232
                        || (n == 8233
                            || (n == 8239 || (n == 8287 || (n == 12288 || n == 65279)))))))))

abbrev pub is_empty : String → Bool
is_empty String.[] = true
is_empty (String.◌∷◌ c s) = false

abbrev pub trim_start : String → String
trim_start String.[] = String.[]
trim_start (String.◌∷◌ c s) = if is_space c then trim_start s else String.◌∷◌ c s

abbrev pub trim_end : String → String
trim_end String.[] = String.[]
trim_end (String.◌∷◌ c s) =
    let rest = trim_end s in if is_space c && is_empty rest then String.[] else String.◌∷◌ c rest

-- `text.trim()`
abbrev pub trim : String → String
trim s = trim_end (trim_start s)

-- The number of words of a text: the runs of other characters between white space.
abbrev count_words : Bool → String → ℕ
count_words inside String.[] = 0
count_words inside (String.◌∷◌ c s) =
    let gap = count_words false s in
    let word = count_words true s in if is_space c then gap else if inside then word else suc word

-- `text.trim().length === 0 ? 0 : text.trim().split(/\s+/).length`
abbrev pub word_count : String → ℕ
word_count s = count_words false s
