-- ===== src/Base/Text.antt =====
-- What the planner does with texts: `trim_start`, `starts_with('=')`, and the bytes of a text.
use Prim.Native.Nat.{ℕ, ◌+◌, ◌/◌, ◌%◌}
use Prim.Native.Char.{Char, char, code, nul}
use Prim.Native.String.{String, [], ◌∷◌}
use mathlib.Core.Bool.{Bool, false, ◌&&◌, ◌||◌}
use mathlib.Core.List.{List, ◌++◌}
use ossctl.Base.Tests.{ltb, leb, ◌==◌, if◌then◌else◌}

-- `char::is_whitespace`, the property `White_Space` of Unicode
unfoldable pub is_whitespace : Char → Bool
is_whitespace c =
    let n = code c in
    (leb 9 n && leb n 13)
    || n == 32
    || n == 133
    || n == 160
    || n == 5760
    || (leb 8192 n && leb n 8202)
    || n == 8232
    || n == 8233
    || n == 8239
    || n == 8287
    || n == 12288

-- `trim_start`
unfoldable pub trim_start : String → String
unfolding is_whitespace
trim_start [] = []
trim_start (c ∷ s) = let rest = trim_start s in if is_whitespace c then rest else c ∷ s

-- `starts_with('=')`
unfoldable pub starts_with_equals : String → Bool
starts_with_equals [] = false
starts_with_equals (c ∷ s) = code c == 61

utf8 : Char → List ℕ
utf8 c =
    let n = code c in
    if ltb n 128
    then List.◌∷◌ n List.[]
    else if ltb n 2048
    then List.◌∷◌ (192 + n / 64) (List.◌∷◌ (128 + n % 64) List.[])
    else if ltb n 65536
    then List.◌∷◌ (224 + n / 4096) (List.◌∷◌ (128 + n / 64 % 64) (List.◌∷◌ (128 + n % 64) List.[]))
    else List.◌∷◌ (240 + n / 262144) (
        List.◌∷◌ (128 + n / 4096 % 64)
          (List.◌∷◌ (128 + n / 64 % 64) (List.◌∷◌ (128 + n % 64) List.[])))

-- the bytes of a text
unfoldable pub bytes : String → List ℕ
unfolding utf8
bytes [] = List.[]
bytes (c ∷ s) = utf8 c ++ bytes s

-- A byte of a printed version: a digit or a dot.
version_char : ℕ → Char
version_char b =
    if b == 46
    then char 46 tt
    else if b == 48
    then char 48 tt
    else if b == 49
    then char 49 tt
    else if b == 50
    then char 50 tt
    else if b == 51
    then char 51 tt
    else if b == 52
    then char 52 tt
    else if b == 53
    then char 53 tt
    else if b == 54
    then char 54 tt
    else if b == 55
    then char 55 tt
    else if b == 56
    then char 56 tt
    else if b == 57
    then char 57 tt
    else nul

-- the text of a printed version
unfoldable pub version_text : List ℕ → String
unfolding version_char
version_text List.[] = []
version_text (List.◌∷◌ b bs) = version_char b ∷ version_text bs

-- `chars`, each by its number
unfoldable pub codes : String → List ℕ
codes [] = List.[]
codes (c ∷ s) = List.◌∷◌ (code c) (codes s)
