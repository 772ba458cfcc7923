-- ===== src/Prelude/Texts.antt =====
-- The parts of Go's `strings`, `strconv` and `fmt` that the program uses. A text is compared,
-- split and parsed by its code points: on valid UTF-8 their order is that of the bytes.
pub mod Splitting
use Prim.Native.Nat.{ℕ, ◌+◌, ◌-◌, ◌*◌, ◌^◌, ◌<◌}
use Prim.Native.Char.{Char, code}
use Prim.Native.String.{String, [], ◌∷◌}
use Prim.Native.String as Str
use mathlib.Core.Path.{◌≡◌, refl, ap₂}
use mathlib.Core.Logic.{inl, inr}
use mathlib.Core.Bool.{Bool, true, false, ◌&&◌, ◌||◌}
use mathlib.Core.Option.{Option, none, some}
use mathlib.Core.List.{List}
use native.Mathlib.Omega.{arith}
use text.Mathlib.Text.{◌==◌}
use text.Mathlib.TextEquality.{Char-path}
use envoy_control_plane.Prelude.Tests.{if◌then◌else◌, Bool-cases, ltb, leb, nat_beq}

-- `s <= t`, as `sort.Strings` orders texts.
unfoldable pub str_leb : String → String → Bool
str_leb [] t = true
str_leb (c ∷ s) [] = false
str_leb (c ∷ s) (d ∷ t) = ltb (code c) (code d) || nat_beq (code c) (code d) && str_leb s t

pub str_leb_total : (s t : String) → str_leb s t ≡ false → str_leb t s ≡ true
unfolding str_leb
str_leb_total [] t h = cc
str_leb_total (c ∷ s) [] h = refl
str_leb_total (c ∷ s) (d ∷ t) h = ground (arith, str_leb_total s t)

pub str_leb_antisymm : (s t : String) → str_leb s t ≡ true → str_leb t s ≡ true → s ≡ t
unfolding str_leb
str_leb_antisymm [] [] h k = refl
str_leb_antisymm [] (d ∷ t) h k = cc
str_leb_antisymm (c ∷ s) [] h k = cc
str_leb_antisymm (c ∷ s) (d ∷ t) h k =
    ap₂ ◌∷◌ (Char-path c d (ground arith)) (str_leb_antisymm s t (ground arith) (ground arith))

pub str_leb_trans : (s t u : String) → str_leb s t ≡ true → str_leb t u ≡ true → str_leb s u ≡ true
unfolding str_leb
str_leb_trans [] t u h k = refl
str_leb_trans (c ∷ s) [] u h k = cc
str_leb_trans (c ∷ s) (d ∷ t) [] h k = cc
str_leb_trans (c ∷ s) (d ∷ t) (e ∷ u) h k = ground (arith, str_leb_trans s t u)

-- strings.HasPrefix(s, p)
unfoldable pub has_prefix : String → String → Bool
has_prefix s [] = true
has_prefix [] (d ∷ p) = false
has_prefix (c ∷ s) (d ∷ p) = nat_beq (code c) (code d) && has_prefix s p

-- strings.HasSuffix(s, p)
unfoldable pub has_suffix : String → String → Bool
has_suffix [] p = [] == p
has_suffix (c ∷ s) p = (c ∷ s) == p || has_suffix s p

-- s + t
abbrev pub join_text : String → String → String
join_text s t = Str.◌++◌ s t

abbrev push : String → Char → String
push s c = Str.◌++◌ s (c ∷ [])

-- strings.Split(s, sep) for a separator of one character: `cur` is the part that is being read.
split_from : ℕ → String → String → List String
split_from sep cur [] = List.◌∷◌ cur List.[]
split_from sep cur (c ∷ s) =
    let closed = List.◌∷◌ cur (split_from sep "" s) in
    let longer = split_from sep (push cur c) s in if nat_beq (code c) sep then closed else longer

unfoldable pub split : String → ℕ → List String
unfolding split_from
split s sep = split_from sep "" s

split_from-cons :
    (sep : ℕ) (cur s : String)
    → (first : String) × (rest : List String) × (split_from sep cur s ≡ List.◌∷◌ first rest)
unfolding split_from
split_from-cons sep cur [] = (cur, List.[], refl)
split_from-cons sep cur (c ∷ s) = elim (Bool-cases (nat_beq (code c) sep)) [
  | inl e ↦ rw e (cur, split_from sep "" s, refl)
  | inr e ↦ rw e (split_from-cons sep (push cur c) s)
]

-- strings.Split never gives an empty slice.
pub split-cons :
    (s : String) (sep : ℕ)
    → (first : String) × (rest : List String) × (split s sep ≡ List.◌∷◌ first rest)
unfolding split
split-cons s sep = split_from-cons sep "" s

-- The loop of strconv.ParseUint(s, 10, 64), and its range check.
digits_from : ℕ → String → Option ℕ
digits_from n [] = if ltb n (2 ^ 64) then some n else none
digits_from n (c ∷ s) =
    let d = code c in
    let rest = digits_from (n * 10 + (d - b'0')) s in
    if leb b'0' d && leb d b'9' then rest else none

-- strconv.ParseUint(s, 10, 64), with `none` for its error.
unfoldable pub parse_uint : String → Option ℕ
unfolding digits_from
parse_uint [] = none
parse_uint (c ∷ s) = digits_from 0 (c ∷ s)

digits_from-lt : (n : ℕ) (s : String) (v : ℕ) → digits_from n s ≡ some v → v < 2 ^ 64
unfolding digits_from
digits_from-lt n [] v h = ground arith
digits_from-lt n (c ∷ s) v h = ground (arith, digits_from-lt (n * 10 + (code c - b'0')) s v)

-- An accepted number fits in 64 bits.
pub parse_uint-lt : (s : String) (v : ℕ) → parse_uint s ≡ some v → v < 2 ^ 64
unfolding parse_uint
parse_uint-lt [] v h = cc
parse_uint-lt (c ∷ s) v h = digits_from-lt 0 (c ∷ s) v h

parse_tests :
    (parse_uint "042" ≡ some 42)
    × (parse_uint "" ≡ none)
    × (parse_uint "+1" ≡ none)
    × (parse_uint "18446744073709551616" ≡ none)
    × (parse_uint "18446744073709551615" ≡ some 18446744073709551615)
unfolding parse_uint
parse_tests = (refl, refl, refl, refl, refl)

text_tests :
    (has_prefix "/api/admin/x" "/api/admin" ≡ true)
    × (has_suffix "svc-canary" "-canary" ≡ true)
    × (has_suffix "svc" "-canary" ≡ false)
    × (str_leb "ab" "b" ≡ true)
    × (split "a,,b" b',' ≡ List.◌∷◌ "a" (List.◌∷◌ "" (List.◌∷◌ "b" List.[])))
unfolding has_prefix has_suffix split str_leb
text_tests = (refl, refl, refl, refl, refl)
