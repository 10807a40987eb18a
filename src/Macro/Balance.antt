-- ===== src/Macro/Balance.antt =====
-- internal/lang/macro.go: `takeBalancedPair` and `splitTop`.
use mathlib.Core.Path.{subst}
use quark_lang.Base.{
  All, Bool-cases, List, [], and→both, ap, arith, false, if◌then◌else◌, inl, inr, refl, some, suc,
  true, zero, ℕ, ◌&&◌, ◌++◌, ◌↔◌, ◌∙◌, ◌∷◌, ◌≡◌, ◌≢◌,
}
use quark_lang.Base.Int.{dec, inc, is_zero, negsuc, pos, ℤ}
use quark_lang.Base.Result.{>>=-eq-ok, Result, err, ok, ◌>>=◌}
use quark_lang.Macro.{MacroError, Tokens, close_of, is_close, is_open, unpaired}
use quark_lang.Token.{
  Kind, Token, is_iff, t_comma, t_lbrace, t_lbracket, t_lparen, t_rbrace, t_rbracket, t_rparen,
  ◌is◌,
}

-- The depth behind a token.
abbrev pub depth_after : ℤ → Kind → ℤ
depth_after d k = if is_open k then inc d else if is_close k then dec d else d

-- The loop of `takeBalancedPair` behind its first token: what stands before the closing delimiter,
-- and what follows it. `line` is that of the first token.
unfoldable pub take_from : Kind → ℕ → ℤ → Tokens → Result MacroError (Tokens × Tokens)
take_from close line d [] = err (unpaired line)
take_from close line d (t ∷ ts) =
    let more = take_from close line (depth_after d t.kind) ts in
    if is_close t.kind && is_zero (depth_after d t.kind)
    then (if t.kind is close then ok ([], ts) else err (unpaired line))
    else more >>= λ (inner, rest). ok (t ∷ inner, rest)

-- `takeBalancedPair`, on the tokens from `i` on; every caller has found a left delimiter there.
unfoldable pub take_balanced : Kind → Tokens → Result MacroError (Tokens × Tokens)
unfolding take_from
take_balanced close [] = err (unpaired 0)
take_balanced close (t ∷ ts) = take_from close t.line (inc (pos 0)) ts

abbrev pub prepend : Token → List Tokens → List Tokens
prepend t [] = (t ∷ []) ∷ []
prepend t (p ∷ ps) = (t ∷ p) ∷ ps

unfoldable pub split_from : ℤ → Tokens → List Tokens
split_from d [] = [] ∷ []
split_from d (t ∷ ts) =
    let more = split_from (depth_after d t.kind) ts in
    if t.kind is t_comma && is_zero d then [] ∷ more else prepend t more

-- `splitTop`: the parts between the commas at depth zero.
unfoldable pub split_top : Tokens → List Tokens
unfolding split_from
split_top ts = split_from (pos 0) ts

-- From depth `d` no delimiter in `ts` closes the pair, and at the end the depth is one.
abbrev pub IsNested : ℤ → Tokens → Type 0
IsNested d [] = d ≡ pos 1
IsNested d (t ∷ ts) =
    ((is_close t.kind && is_zero (depth_after d t.kind)) ≡ false)
    × IsNested (depth_after d t.kind) ts

-- From depth `d` no comma in `ts` is at depth zero, and at the end the depth is zero.
abbrev pub IsPart : ℤ → Tokens → Type 0
IsPart d [] = d ≡ pos 0
IsPart d (t ∷ ts) = ((t.kind is t_comma && is_zero d) ≡ false) × IsPart (depth_after d t.kind) ts

is_close→depth : (k : Kind) (d : ℤ) → is_close k ≡ true → depth_after d k ≡ dec d
is_close→depth k d h = let e : is_open k ≡ false = ground arith in rw (e, h)

closes : (k : Kind) → is_close k ≡ true → (is_close k && is_zero (depth_after (pos 1) k)) ≡ true
closes k h = rw (is_close→depth k (pos 1) h) (rw h)

closed_at_one : (k : Kind) (d : ℤ) → (is_close k && is_zero (depth_after d k)) ≡ true → d ≡ pos 1
closed_at_one k d h = let (c, z) = and→both _ _ h in dec_zero d (rw (is_close→depth k d c) at z)
  where
    dec_zero : (d : ℤ) → is_zero (dec d) ≡ true → d ≡ pos 1
    dec_zero (pos zero) e = cc
    dec_zero (pos (suc zero)) e = refl
    dec_zero (pos (suc (suc n))) e = cc
    dec_zero (negsuc n) e = cc

take_from-append :
    (close : Kind) (line : ℕ) (d : ℤ) (inner : Tokens) (c : Token) (rest : Tokens)
    → is_close close ≡ true
    → c.kind ≡ close
    → IsNested d inner
    → take_from close line d (inner ++ c ∷ rest) ≡ ok (inner, rest)
unfolding take_from
take_from-append close line d [] c rest h e n =
    rw (n, e, closes close h, (is_iff close close).1 refl)
take_from-append close line d (t ∷ inner) c rest h e (n, m) =
    rw (n, take_from-append close line (depth_after d t.kind) inner c rest h e m)

ok_pair :
    {a b c d : Tokens}
    → ◌≡◌ {A = Result MacroError (Tokens × Tokens)} (ok (a, b)) (ok (c, d))
    → (a ≡ c) × (b ≡ d)
ok_pair e = (cc, cc)

err_ne_ok : {x : MacroError} {p : Tokens × Tokens} → err x ≡ ok p → ⊥
err_ne_ok e = cc

take_from-eq-ok :
    (close : Kind) (line : ℕ) (d : ℤ) (ts inner rest : Tokens)
    → take_from close line d ts ≡ ok (inner, rest)
    → (c : Token) × (ts ≡ inner ++ c ∷ rest) × IsNested d inner × (c.kind ≡ close)
unfolding take_from
take_from-eq-ok close line d [] inner rest e = absurd (err_ne_ok e)
take_from-eq-ok close line d (t ∷ ts) inner rest e =
    elim (Bool-cases (is_close t.kind && is_zero (depth_after d t.kind))) [
      | inl z ↦ stop (rw z at e) (closed_at_one t.kind d z)
      | inr z ↦
          let ((i, r), p, q) =
            >>=-eq-ok (take_from close line (depth_after d t.kind) ts) _ (rw z at e) in
          more z (take_from-eq-ok close line (depth_after d t.kind) ts i r p) q
    ]
  where
    stop :
        if◌then◌else◌ {A = Result MacroError (Tokens × Tokens)}
            (t.kind is close)
            (ok ([], ts))
            (err (unpaired line))
          ≡ ok (inner, rest)
        → d ≡ pos 1
        → (c : Token) × (t ∷ ts ≡ inner ++ c ∷ rest) × IsNested d inner × (c.kind ≡ close)
    stop e z = elim (Bool-cases (t.kind is close)) [
      | inl k ↦
          let (p, q) = ok_pair (rw k at e) in
          (t, rw (← p, ← q), subst (IsNested d) p z, (is_iff t.kind close).0 k)
      | inr k ↦ absurd (err_ne_ok (rw k at e))
    ]

    more :
        {i r : Tokens}
        → (is_close t.kind && is_zero (depth_after d t.kind)) ≡ false
        → (c : Token) × (ts ≡ i ++ c ∷ r) × IsNested (depth_after d t.kind) i × (c.kind ≡ close)
        → ◌≡◌ {A = Result MacroError (Tokens × Tokens)} (ok (t ∷ i, r)) (ok (inner, rest))
        → (c : Token) × (t ∷ ts ≡ inner ++ c ∷ rest) × IsNested d inner × (c.kind ≡ close)
    more {i} {r} z (c, p, n, k) e =
        let (u, v) = ok_pair e in (c, rw (← u, ← v, p), subst (IsNested d) u (z, n), k)

-- `takeBalancedPair` at a left delimiter returns `inner` and `rest` exactly if the tokens behind
-- that delimiter are `inner`, in which every pair is closed, then a token of the wanted kind, then
-- `rest`.
pub take_balanced_iff :
    (close : Kind) (o : Token) (ts inner rest : Tokens)
    → is_close close ≡ true
    → (take_balanced close (o ∷ ts) ≡ ok (inner, rest))
      ↔ ((c : Token) × (ts ≡ inner ++ c ∷ rest) × IsNested (pos 1) inner × (c.kind ≡ close))
unfolding take_balanced
take_balanced_iff close o ts inner rest h = (
  take_from-eq-ok close o.line (pos 1) ts inner rest,
  λ (c, p, n, k). rw p (take_from-append close o.line (pos 1) inner c rest h k n),
)

-- Parts with a separating token between each two.
abbrev pub join : Token → List Tokens → Tokens
join c [] = []
join c (p ∷ []) = p
join c (p ∷ q ∷ ps) = p ++ c ∷ join c (q ∷ ps)

split_from-end : (d : ℤ) (p : Tokens) → IsPart d p → split_from d p ≡ p ∷ []
unfolding split_from
split_from-end d [] h = refl
split_from-end d (t ∷ p) (h, hs) = rw (h, split_from-end (depth_after d t.kind) p hs)

split_from-append :
    (d : ℤ) (p : Tokens) (c : Token) (rest : Tokens)
    → c.kind ≡ t_comma
    → IsPart d p
    → split_from d (p ++ c ∷ rest) ≡ p ∷ split_from (pos 0) rest
unfolding split_from
split_from-append d [] c rest k h = rw (h, k)
split_from-append d (t ∷ p) c rest k (h, hs) =
    rw (h, split_from-append (depth_after d t.kind) p c rest k hs)

-- `splitTop` takes apart what commas join: parts in which each comma stands inside a pair, and
-- which close their pairs, are given back in order.
pub split_top-join :
    (c : Token) (ps : List Tokens)
    → c.kind ≡ t_comma
    → ps ≢ []
    → All (IsPart (pos 0)) ps
    → split_top (join c ps) ≡ ps
unfolding split_top
split_top-join c [] k n h = absurd (n refl)
split_top-join c (p ∷ []) k n h = split_from-end (pos 0) p h.0
split_top-join c (p ∷ q ∷ ps) k n (h, hs) =
    split_from-append (pos 0) p c (join c (q ∷ ps)) k h
    ∙ ap (◌∷◌ p) (split_top-join c (q ∷ ps) k (λ e. cc) hs)

pub close_of-is_close : (k c : Kind) → close_of k ≡ some c → is_close c ≡ true
unfolding close_of
close_of-is_close t_lparen c h = let e : t_rparen ≡ c = cc in subst (λ x. is_close x ≡ true) e refl
close_of-is_close t_lbracket c h =
    let e : t_rbracket ≡ c = cc in subst (λ x. is_close x ≡ true) e refl
close_of-is_close t_lbrace c h = let e : t_rbrace ≡ c = cc in subst (λ x. is_close x ≡ true) e refl
close_of-is_close _ c h = cc
