-- ===== src/Js/Text.antt =====
-- JavaScript text as the sources use it: trim, toLowerCase, includes and splitting at commas and
-- newlines. Text is a list of Unicode characters; toLowerCase is that of ASCII letters, which
-- decides every comparison that the sources make afterwards.
use Prim.Native.Char.{Char, code}
use Prim.Native.String
use Prim.Native.String.{[], ◌∷◌}
use mathlib.Core.List.{[], ◌∷◌}
use node_red_contrib_bull.Prelude.{
  String, ◌≡◌, refl, Bool, true, false, ◌&&◌, ◌||◌, List, ◌<>◌, ◌==◌, leb, str_eq, if◌then◌else◌,
}

-- White space and line terminators of ECMAScript.
unfoldable pub is_space : Char → Bool
is_space c =
    let n = code c in
    (leb 9 n && leb n 13)
    || n == 32
    || n == 160
    || n == 5760
    || (leb 8192 n && leb n 8202)
    || n == 8232
    || n == 8233
    || n == 8239
    || n == 8287
    || n == 12288
    || n == 65279

unfoldable pub trim_start : String → String
unfolding is_space
trim_start [] = []
trim_start (c ∷ s) = let rest = trim_start s in if is_space c then rest else c ∷ s

-- A character in front of what is left of a text whose end was trimmed.
abbrev pub keep_before : Char → String → String
keep_before c [] = if is_space c then [] else c ∷ []
keep_before c (d ∷ s) = c ∷ d ∷ s

unfoldable pub trim_end : String → String
unfolding is_space
trim_end [] = []
trim_end (c ∷ s) = keep_before c (trim_end s)

unfoldable pub trim : String → String
unfolding trim_start trim_end
trim s = trim_end (trim_start s)

translate : String → String → Char → Char
translate (a ∷ froms) (b ∷ tos) c =
    let rest = translate froms tos c in if code a == code c then b else rest
translate _ _ c = c

unfoldable pub to_lower : String → String
unfolding translate
to_lower [] = []
to_lower (c ∷ s) =
    translate "ABCDEFGHIJKLMNOPQRSTUVWXYZ" "abcdefghijklmnopqrstuvwxyz" c ∷ to_lower s

is_separator : Char → Bool
is_separator c = code c == 10 || code c == b','

push : String → Char → String
push s c = String.◌++◌ s (c ∷ [])

-- `split(/[\n,]+/)`. The flag says that the last character was a separator.
split_from : Bool → String → String → List String
unfolding is_separator push
split_from after cur [] = cur ∷ []
split_from true cur (c ∷ s) =
    let same = split_from true cur s in
    let longer = split_from false (push cur c) s in if is_separator c then same else longer
split_from false cur (c ∷ s) =
    let closed : List String = cur ∷ split_from true "" s in
    let longer = split_from false (push cur c) s in if is_separator c then closed else longer

unfoldable pub split_list : String → List String
unfolding split_from
split_list s = split_from false "" s

unfoldable pub is_prefix : String → String → Bool
is_prefix [] t = true
is_prefix (c ∷ s) [] = false
is_prefix (c ∷ s) (d ∷ t) = code c == code d && is_prefix s t

-- `text.includes(part)`
unfoldable pub includes : String → String → Bool
unfolding is_prefix
includes [] part = is_prefix part []
includes (c ∷ s) part = is_prefix part (c ∷ s) || includes s part

-- `names.includes(text)`
unfoldable pub elem : String → List String → Bool
elem s [] = false
elem s (t ∷ ts) = str_eq s t || elem s ts

split_test : split_list "a,b\n, c,," ≡ "a" ∷ "b" ∷ " c" ∷ "" ∷ []
unfolding split_list
split_test = refl

trim_test : trim (" a b\t" <> " ") ≡ "a b"
unfolding trim
trim_test = refl

to_lower_test : to_lower "Redis 5" ≡ "redis 5"
unfolding to_lower
to_lower_test = refl

includes_test : includes "run npm install pg" "npm install pg" ≡ true
unfolding includes
includes_test = refl
