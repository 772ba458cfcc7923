-- ===== src/Prelude/Texts/Splitting.antt =====
-- Go's strings.Split of joined parts.
use Prim.Native.Nat.{ℕ}
use Prim.Native.Char.{Char, code}
use Prim.Native.String.{String, [], ◌∷◌}
use mathlib.Core.Path.{◌≡◌, refl, ap, sym, ◌∙◌}
use mathlib.Core.Bool.{Bool, true, false, ◌&&◌, not}
use mathlib.Core.List.{List}
use native.Mathlib.Omega.{arith}
use text.Mathlib.TextLemmas.{nil-append, cons-append, append-nil, append_assoc}
use envoy_control_plane.Prelude.Lists.{All}
use envoy_control_plane.Prelude.Tests.{nat_beq}
use envoy_control_plane.Prelude.Texts.{join_text, split, split_from, push}

-- No character of the text is the separator.
abbrev pub is_free : ℕ → String → Bool
is_free sep [] = true
is_free sep (c ∷ s) = not (nat_beq (code c) sep) && is_free sep s

-- The parts with a separator between them.
abbrev pub join_parts : Char → String → List String → String
join_parts separator part List.[] = part
join_parts separator part (List.◌∷◌ next parts) =
    join_text part (separator ∷ join_parts separator next parts)

push-append :
    (cur : String) (c : Char) (s : String) → join_text (push cur c) s ≡ join_text cur (c ∷ s)
push-append cur c s =
    append_assoc cur (c ∷ []) s
    ∙ ap (join_text cur) (cons-append c [] s ∙ ap (λ z. c ∷ z) (nil-append s))

split_from-open :
    (sep : ℕ) (cur : String) (c : Char) (s : String)
    → nat_beq (code c) sep ≡ false
    → split_from sep cur (c ∷ s) ≡ split_from sep (push cur c) s
unfolding split_from
split_from-open sep cur c s h = rw h refl

split_from-closed :
    (sep : ℕ) (cur : String) (c : Char) (s : String)
    → nat_beq (code c) sep ≡ true
    → split_from sep cur (c ∷ s) ≡ List.◌∷◌ cur (split_from sep "" s)
unfolding split_from
split_from-closed sep cur c s h = rw h refl

split_from-part :
    (sep : ℕ) (cur s rest : String)
    → is_free sep s ≡ true
    → split_from sep cur (join_text s rest) ≡ split_from sep (join_text cur s) rest
split_from-part sep cur [] rest h =
    ap (split_from sep cur) (nil-append rest)
    ∙ ap (λ z. split_from sep z rest) (sym (append-nil cur))
split_from-part sep cur (c ∷ s) rest h =
    ap (split_from sep cur) (cons-append c s rest)
    ∙ split_from-open sep cur c (join_text s rest) (ground (arith, h))
    ∙ split_from-part sep (push cur c) s rest (ground (arith, h))
    ∙ ap (λ z. split_from sep z rest) (push-append cur c s)

split_from-last :
    (sep : ℕ) (s : String) → is_free sep s ≡ true → split_from sep "" s ≡ List.◌∷◌ s List.[]
unfolding split_from
split_from-last sep s h =
    ap (split_from sep "") (sym (append-nil s))
    ∙ split_from-part sep "" s [] h
    ∙ ap (λ z. List.◌∷◌ z List.[]) (nil-append s)

-- strings.Split gives the parts back, if none has the separator in it.
pub split-join_parts :
    (separator : Char) (part : String) (parts : List String)
    → All (λ s. is_free (code separator) s ≡ true) (List.◌∷◌ part parts)
    → split (join_parts separator part parts) (code separator) ≡ List.◌∷◌ part parts
unfolding split
split-join_parts separator part List.[] (h, _) = split_from-last (code separator) part h
split-join_parts separator part (List.◌∷◌ next parts) (h, k) =
    split_from-part (code separator) "" part _ h
    ∙ split_from-closed (code separator) (join_text "" part) separator _ (ground arith)
    ∙ ap (λ z. List.◌∷◌ z (split_from (code separator) "" (join_parts separator next parts)))
        (nil-append part)
    ∙ ap (List.◌∷◌ part) (split-join_parts separator next parts k)
