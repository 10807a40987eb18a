-- ===== src/Macro/Stream.antt =====
-- internal/lang/macro.go: the end of file stays the last token, and the only one of its kind, when
-- parts are taken out of the tokens.

-- The run, if it gives a value, gives one that `P` holds of.
use mathlib.Core.Path.{subst}
use quark_lang.Base.{
  All, Bool, Bool-cases, Bytes, List, [], and→both, equal, false, if◌then◌else◌, inl, inr, insert,
  lookup, lookup-insert, refl, some, sym, true, ℕ, ◌&&◌, ◌++◌, ◌∙◌, ◌∷◌, ◌≡◌, ◌≢◌,
}
use quark_lang.Base.Int.{inc, is_zero, pos, ℤ}
use quark_lang.Base.Result.{Ensures, Result, err, ok, out_of_fuel, ◌>>=◌}
use quark_lang.Lexer.Progress.{IsStream, cons-IsStream}
use quark_lang.Macro.{MacroError, Tokens, is_close}
use quark_lang.Macro.Balance.{depth_after, prepend, split_from, split_top, take_balanced, take_from}
use quark_lang.Token.{Kind, Token, t_comma, t_eof, ◌is◌}

pub data Yields {ℓ} {A : Type ℓ} (P : A → Type 0) : Result MacroError A → Type ℓ where
  yields : {a : A} → P a → Yields P (ok a)
  fails : {e : MacroError} → Yields P (err e)
  runs_out : Yields P out_of_fuel

pub Yields-Ensures {ℓ} :
    {A : Type ℓ} {P : A → Type 0} {r : Result MacroError A}
    → Yields P r
    → r ≢ out_of_fuel
    → Ensures P r
Yields-Ensures (yields p) n = p
Yields-Ensures fails n = tt
Yields-Ensures runs_out n = n refl

module _ {ℓ κ} {A : Type ℓ} {B : Type κ} where
  pub >>=-Yields :
      {P : A → Type 0} {Q : B → Type 0} {r : Result MacroError A} {f : A → Result MacroError B}
      → Yields P r
      → ((a : A) → P a → Yields Q (f a))
      → Yields Q (r >>= f)
  >>=-Yields (yields {a} p) k = k a p
  >>=-Yields fails k = fails
  >>=-Yields runs_out k = runs_out

pub if-Yields {ℓ} :
    {A : Type ℓ} {P : A → Type 0} (b : Bool) {x y : Result MacroError A}
    → (b ≡ true → Yields P x)
    → (b ≡ false → Yields P y)
    → Yields P (if b then x else y)
if-Yields true h k = h refl
if-Yields false h k = k refl

pub Yields-weaken {ℓ} :
    {A : Type ℓ} {P Q : A → Type 0} {r : Result MacroError A}
    → ((a : A) → P a → Q a)
    → Yields P r
    → Yields Q r
Yields-weaken k (yields {a} p) = yields (k a p)
Yields-weaken k fails = fails
Yields-weaken k runs_out = runs_out

pub choice-Yields {ℓ} :
    {A : Type ℓ} {P : A → Type 0} (b : Bool) {x y : Result MacroError A}
    → Yields P x
    → Yields P y
    → Yields P (if b then x else y)
choice-Yields b h k = if-Yields b (λ _. h) (λ _. k)

pub any-Yields {ℓ} : {A : Type ℓ} (r : Result MacroError A) → Yields (λ _. Unit {0}) r
any-Yields (ok a) = yields tt
any-Yields (err e) = fails
any-Yields out_of_fuel = runs_out

-- No token is the end of file.
abbrev pub IsInner : Tokens → Type 0
IsInner ts = All (λ t. t.kind ≢ t_eof) ts

pub append-IsStream : (xs ys : Tokens) → IsInner xs → IsStream ys → IsStream (xs ++ ys)
append-IsStream [] ys h k = k
append-IsStream (x ∷ xs) ys (h, hs) k = cons-IsStream x (xs ++ ys) h (append-IsStream xs ys hs k)

pub tail-IsStream : (t : Token) (ts : Tokens) → t.kind ≢ t_eof → IsStream (t ∷ ts) → IsStream ts
tail-IsStream t [] n h = absurd (n h)
tail-IsStream t (u ∷ ts) n h = h.1

close-ne-eof : (k : Kind) → is_close k ≡ true → k ≢ t_eof
close-ne-eof k h = λ e. cc

-- A part without the end of file, and a rest that `Q` holds of.
abbrev pub Cuts : (Tokens → Type 0) → Tokens × Tokens → Type 0
Cuts Q (inner, rest) = IsInner inner × Q rest

abbrev pub IsCut : Tokens × Tokens → Type 0
IsCut = Cuts IsStream

abbrev pub IsCutInner : Tokens × Tokens → Type 0
IsCutInner = Cuts IsInner

with_token :
    (Q : Tokens → Type 0) (t : Token)
    → t.kind ≢ t_eof
    → {r : Result MacroError (Tokens × Tokens)} → Yields (Cuts Q) r
    → Yields (Cuts Q) (r >>= λ (inner, rest). ok (t ∷ inner, rest))
with_token Q t h (yields (p, q)) = yields ((h, p), q)
with_token Q t h fails = fails
with_token Q t h runs_out = runs_out

take_from-IsCut :
    (close : Kind) (line : ℕ) (d : ℤ) (ts : Tokens)
    → IsStream ts
    → Yields IsCut (take_from close line d ts)
unfolding take_from
take_from-IsCut close line d [] h = fails
take_from-IsCut close line d (t ∷ []) h =
    if-Yields (is_close t.kind && is_zero (depth_after d t.kind))
      (λ e. absurd (close-ne-eof t.kind (and→both _ _ e).0 h)) (λ _. fails)
take_from-IsCut close line d (t ∷ u ∷ ts) h =
    if-Yields (is_close t.kind && is_zero (depth_after d t.kind))
      (λ _. if-Yields (t.kind is close) (λ _. yields (tt, h.1)) (λ _. fails))
      (λ _.
        with_token IsStream t h.0 (take_from-IsCut close line (depth_after d t.kind) (u ∷ ts) h.1))

pub take_balanced-IsCut :
    (close : Kind) (ts : Tokens) → IsStream ts → Yields IsCut (take_balanced close ts)
unfolding take_balanced take_from
take_balanced-IsCut close [] h = fails
take_balanced-IsCut close (t ∷ []) h = fails
take_balanced-IsCut close (t ∷ u ∷ ts) h = take_from-IsCut close t.line (inc (pos 0)) (u ∷ ts) h.1

take_from-IsCutInner :
    (close : Kind) (line : ℕ) (d : ℤ) (ts : Tokens)
    → IsInner ts
    → Yields IsCutInner (take_from close line d ts)
unfolding take_from
take_from-IsCutInner close line d [] h = fails
take_from-IsCutInner close line d (t ∷ ts) (h, hs) =
    if-Yields (is_close t.kind && is_zero (depth_after d t.kind))
      (λ _. if-Yields (t.kind is close) (λ _. yields (tt, hs)) (λ _. fails))
      (λ _. with_token IsInner t h (take_from-IsCutInner close line (depth_after d t.kind) ts hs))

pub take_balanced-IsCutInner :
    (close : Kind) (ts : Tokens) → IsInner ts → Yields IsCutInner (take_balanced close ts)
unfolding take_balanced
take_balanced-IsCutInner close [] h = fails
take_balanced-IsCutInner close (t ∷ ts) h = take_from-IsCutInner close t.line (inc (pos 0)) ts h.1

prepend-IsInner :
    (t : Token) → t.kind ≢ t_eof → (ps : List Tokens) → All IsInner ps → All IsInner (prepend t ps)
prepend-IsInner t h [] hs = ((h, tt), tt)
prepend-IsInner t h (p ∷ ps) (k, ks) = ((h, k), ks)

split_from-IsInner : (d : ℤ) (ts : Tokens) → IsInner ts → All IsInner (split_from d ts)
unfolding split_from
split_from-IsInner d [] h = (tt, tt)
split_from-IsInner d (t ∷ ts) (h, hs) =
    let more = split_from-IsInner (depth_after d t.kind) ts hs in
    elim (Bool-cases (t.kind is t_comma && is_zero d)) [
      | inl e ↦ rw e (tt, more)
      | inr e ↦ rw e (prepend-IsInner t h _ more)
    ]

-- The parts of an argument list.
pub split_top-IsInner : (ts : Tokens) → IsInner ts → All IsInner (split_top ts)
unfolding split_top
split_top-IsInner ts h = split_from-IsInner (pos 0) ts h

-- `P` holds of everything that the map gives.
abbrev pub IsMapOf : {V : Type 0} → (V → Type 0) → List (Bytes × V) → Type 0
IsMapOf {V} P s = (k : Bytes) (v : V) → lookup k s ≡ some v → P v

module _ {V : Type 0} (P : V → Type 0) where
  pub empty-IsMapOf : IsMapOf P []
  unfolding lookup
  empty-IsMapOf k v e = cc

  pub insert-IsMapOf :
      (key : Bytes) (new : V) (s : List (Bytes × V))
      → P new
      → IsMapOf P s
      → IsMapOf P (insert key new s)
  insert-IsMapOf key new s p h k v e = go (equal key k) (sym (lookup-insert key k new s) ∙ e)
    where
      go : (b : Bool) → (if b then some new else lookup k s) ≡ some v → P v
      go true q = let same : new ≡ v = cc in subst P same p
      go false q = h k v q
