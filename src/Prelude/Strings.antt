-- ===== src/Prelude/Strings.antt =====
-- A Rust `String` is its UTF-8 bytes. `text` turns a literal into them.
use Prim.Native.Nat.{ℕ, zero, suc, ◌+◌, ◌/◌, ◌%◌}
use Prim.Native.Char.{code}
use Prim.Native.String.{String}
use mathlib.Core.Bool.{Bool, true, false, ◌&&◌, ◌||◌}
use mathlib.Core.List.{List, [], ◌∷◌, ◌++◌}
use nexus_auth.Prelude.Tests.{ltb, leb, ◌==◌, if◌then◌else◌}

abbrev pub Bytes : Type 0
Bytes = List ℕ

abbrev pub Text : Type 0
Text = List ℕ

utf8 : ℕ → Bytes
utf8 c =
    if ltb c 128
    then c ∷ []
    else if ltb c 2048
    then (192 + c / 64) ∷ (128 + c % 64) ∷ []
    else if ltb c 65536
    then (224 + c / 4096) ∷ (128 + c / 64 % 64) ∷ (128 + c % 64) ∷ []
    else (240 + c / 262144) ∷ (128 + c / 4096 % 64) ∷ (128 + c / 64 % 64) ∷ (128 + c % 64) ∷ []

-- The bytes of a literal.
unfoldable pub text : String → Text
unfolding utf8
text String.[] = []
text (String.◌∷◌ c s) = utf8 (code c) ++ text s

abbrev pub is_empty : Text → Bool
is_empty [] = true
is_empty (b ∷ bs) = false

decimal_digits : ℕ → ℕ → Text → Text
decimal_digits zero n acc = acc
decimal_digits (suc fuel) n acc =
    let rest = decimal_digits fuel (n / 10) ((48 + n % 10) ∷ acc) in
    if ltb n 10 then (48 + n) ∷ acc else rest

-- `{}` of a `u64`: twenty digits hold every value.
unfoldable pub decimal : ℕ → Text
unfolding decimal_digits
decimal n = decimal_digits 20 n []

is_space : ℕ → Bool
is_space b = (leb 9 b && leb b 13) || b == 32

-- A character of `White_Space` in two bytes: U+0085, U+00A0.
is_space2 : ℕ → ℕ → Bool
is_space2 a b = a == 194 && (b == 133 || b == 160)

-- In three bytes: U+1680, U+2000 to U+200A, U+2028, U+2029, U+202F, U+205F, U+3000.
is_space3 : ℕ → ℕ → ℕ → Bool
is_space3 a b c =
    (a == 225 && b == 154 && c == 128)
    || (a == 226 && b == 128 && ((leb 128 c && leb c 138) || c == 168 || c == 169 || c == 175))
    || (a == 226 && b == 129 && c == 159)
    || (a == 227 && b == 128 && c == 128)

-- `s.trim().is_empty()`: every character is white space.
unfoldable pub is_blank : Text → Bool
unfolding is_space is_space2 is_space3
is_blank [] = true
is_blank (a ∷ []) = is_space a
is_blank (a ∷ b ∷ []) = (is_space a && is_space b) || is_space2 a b
is_blank (a ∷ b ∷ c ∷ s) =
    let one = is_blank (b ∷ c ∷ s) in
    let two = is_blank (c ∷ s) in
    let three = is_blank s in
    if is_space a then one else if is_space2 a b then two else is_space3 a b c && three
