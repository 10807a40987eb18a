-- ===== src/Cgen/Meta/Walk/Seen.antt =====
-- compiler/internal/cgen/cgen.go: the names that a walk has seen.

use quark_lang.Base.{
  Bool, Bool-cases, Bytes, List, [], arith, equal, equal_iff, equal_refl, false, if◌then◌else◌, inl,
  inr, length, lookup, refl, suc, true, ℕ, ◌<◌, ◌||◌, ◌∷◌, ◌≡◌, ◌≤◌,
}
use quark_lang.Cgen.Meta.{FnMeta, MetaTable, has, is_fn}

pub or_true : (b : Bool) → (b || true) ≡ true
or_true b = ground arith

abbrev pub Sub : List Bytes → List Bytes → Type 0
Sub s r = (x : Bytes) → has x s ≡ true → has x r ≡ true

-- How many entries of the table are not seen.
abbrev pub unseen : MetaTable → List Bytes → ℕ
unseen [] seen = 0
unseen ((k, m) ∷ t) seen = if has k seen then unseen t seen else suc (unseen t seen)

pub unseen-le : (t : MetaTable) (seen : List Bytes) → unseen t seen ≤ length t
unseen-le [] seen = omega arith
unseen-le ((k, m) ∷ t) seen = ground (arith, unseen-le t seen)

pub unseen_mono : (t : MetaTable) (s r : List Bytes) → Sub s r → unseen t r ≤ unseen t s
unseen_mono [] s r h = omega arith
unseen_mono ((k, m) ∷ t) s r h = ground (arith, unseen_mono t s r h, h k)

cons-Sub : (n : Bytes) (s : List Bytes) → Sub s (n ∷ s)
unfolding has
cons-Sub n s x h = rw (h, or_true) refl

is_fn-tail :
    (k n : Bytes) (m : FnMeta) (t : MetaTable)
    → equal k n ≡ false
    → is_fn ((k, m) ∷ t) n ≡ true
    → is_fn t n ≡ true
unfolding is_fn lookup
is_fn-tail k n m t e d = ground arith

pub unseen-cons :
    (t : MetaTable) (seen : List Bytes) (n : Bytes)
    → is_fn t n ≡ true
    → has n seen ≡ false
    → unseen t (n ∷ seen) < unseen t seen
unfolding is_fn lookup has
unseen-cons [] seen n d e = cc
unseen-cons ((k, m) ∷ t) seen n d e = elim (Bool-cases (equal k n)) [
  | inl same ↦
      let eq = (equal_iff k n).0 same in
      ground (arith, equal_refl n, unseen_mono t seen (n ∷ seen) (cons-Sub n seen))
  | inr other ↦
      let ih = unseen-cons t seen n (is_fn-tail k n m t other d) e in
      ground (arith, equal_iff k n, equal_iff n k, ih)
]
