-- ===== src/Base/Text.antt =====
-- Lengths of JavaScript strings, which count UTF-16 code units.
use Prim.Native.Char.{code}
use arcana_cloud_nodejs.Base.{
  ℕ, ◌+◌, String, Bool, true, false, ◌&&◌, ◌==◌, List, [], ◌∷◌, ltb, if◌then◌else◌,
}

-- The code points of a text.
abbrev pub codes : String → List ℕ
codes String.[] = []
codes (String.◌∷◌ c s) = code c ∷ codes s

abbrev units : List ℕ → ℕ
units [] = 0
units (c ∷ cs) = (if ltb c 0x10000 then 1 else 2) + units cs

-- `s.length`
abbrev pub utf16_length : String → ℕ
utf16_length s = units (codes s)

-- `s.startsWith(p)`, of a prefix and a text
abbrev pub starts_with : String → String → Bool
starts_with String.[] s = true
starts_with (String.◌∷◌ c p) String.[] = false
starts_with (String.◌∷◌ c p) (String.◌∷◌ d s) = code c == code d && starts_with p s

-- `s.split(' ')[0]`
abbrev pub first_word : String → String
first_word String.[] = ""
first_word (String.◌∷◌ c s) =
    let rest = first_word s in if code c == 32 then "" else String.◌∷◌ c rest

-- `s.split(' ')[1]`, where there is a space
abbrev pub second_word : String → String
second_word String.[] = ""
second_word (String.◌∷◌ c s) =
    let rest = second_word s in if code c == 32 then first_word s else rest
