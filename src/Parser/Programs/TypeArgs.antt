-- ===== src/Parser/Programs/TypeArgs.antt =====
-- internal/lang/parser.go and internal/lang/typecheck.go: the base name and the arguments of the type of
-- a space, and `splitTopCommas`. Depth below 0 is possible, as in the source.

use mathlib.Core.List.{reverse}
use quark_lang.Base.{
  Bytes, List, Option, [], equal, if◌then◌else◌, length, map, none, some, suc, take, zero, ℕ, ◌&&◌,
  ◌-◌, ◌==◌, ◌∷◌,
}
use quark_lang.Base.Int.{dec, inc, is_zero, pos, ℤ}

-- The white space of `strings.TrimSpace` in UTF-8.
abbrev pub spaces : List Bytes
spaces =
    (9 ∷ [])
    ∷ (10 ∷ [])
    ∷ (11 ∷ [])
    ∷ (12 ∷ [])
    ∷ (13 ∷ [])
    ∷ (32 ∷ [])
    ∷ (194 ∷ 133 ∷ [])
    ∷ (194 ∷ 160 ∷ [])
    ∷ (225 ∷ 154 ∷ 128 ∷ [])
    ∷ (226 ∷ 128 ∷ 128 ∷ [])
    ∷ (226 ∷ 128 ∷ 129 ∷ [])
    ∷ (226 ∷ 128 ∷ 130 ∷ [])
    ∷ (226 ∷ 128 ∷ 131 ∷ [])
    ∷ (226 ∷ 128 ∷ 132 ∷ [])
    ∷ (226 ∷ 128 ∷ 133 ∷ [])
    ∷ (226 ∷ 128 ∷ 134 ∷ [])
    ∷ (226 ∷ 128 ∷ 135 ∷ [])
    ∷ (226 ∷ 128 ∷ 136 ∷ [])
    ∷ (226 ∷ 128 ∷ 137 ∷ [])
    ∷ (226 ∷ 128 ∷ 138 ∷ [])
    ∷ (226 ∷ 128 ∷ 168 ∷ [])
    ∷ (226 ∷ 128 ∷ 169 ∷ [])
    ∷ (226 ∷ 128 ∷ 175 ∷ [])
    ∷ (226 ∷ 129 ∷ 159 ∷ [])
    ∷ (227 ∷ 128 ∷ 128 ∷ [])
    ∷ []

abbrev pub strip : Bytes → Bytes → Option Bytes
strip [] s = some s
strip (c ∷ w) [] = none
strip (c ∷ w) (d ∷ s) = if c == d then strip w s else none

abbrev pub strip_one : List Bytes → Bytes → Option Bytes
strip_one [] s = none
strip_one (w ∷ ws) s = elim (strip w s) [ some r ↦ some r | none ↦ strip_one ws s ]

abbrev pub trim_left : ℕ → List Bytes → Bytes → Bytes
trim_left zero ws s = s
trim_left (suc f) ws s = elim (strip_one ws s) [ some r ↦ trim_left f ws r | none ↦ s ]

-- `strings.TrimSpace`.
abbrev pub trim_space : Bytes → Bytes
trim_space s =
    let left = trim_left (length s) spaces s in
    reverse (trim_left (length s) (map reverse spaces) (reverse left))

-- `part` is `s[start:i]` in reverse.
unfoldable pub split_commas_from : ℤ → Bytes → Bytes → List Bytes
split_commas_from depth part [] =
    let rest = trim_space (reverse part) in if equal rest [] then [] else rest ∷ []
split_commas_from depth part (c ∷ s) =
    let deeper = split_commas_from (inc depth) (c ∷ part) s in
    let higher = split_commas_from (dec depth) (c ∷ part) s in
    let next = split_commas_from depth [] s in
    let same = split_commas_from depth (c ∷ part) s in
    if c == 60
    then deeper
    else if c == 62
    then higher
    else if c == 44 && is_zero depth
    then trim_space (reverse part) ∷ next
    else same

-- `splitTopCommas`.
unfoldable pub split_top_commas : Bytes → List Bytes
split_top_commas s = split_commas_from (pos 0) [] s

abbrev pub before_angle : Bytes → Bytes
before_angle [] = []
before_angle (c ∷ s) = if c == 60 then [] else c ∷ before_angle s

-- What follows the first `<`, if there is one.
abbrev pub behind_angle : Bytes → Option Bytes
behind_angle [] = none
behind_angle (c ∷ s) = if c == 60 then some s else behind_angle s

unfoldable pub base_name : Bytes → Bytes
base_name s = before_angle s

unfoldable pub inner_types : Bytes → List Bytes
inner_types s = elim (behind_angle s) [
  | some r ↦ split_top_commas (take (length r - 1) r)
  | none ↦ []
]
