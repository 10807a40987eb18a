-- ===== src/CtxPool/Single.antt =====
-- internal/lang/value.go: `newCtx` and `putCtx` where only one thread takes contexts, and any number
-- of them puts contexts back.
use mathlib.Core.Path.{subst}
use quark_lang.Base.{
  ==_refl, List, [], ap, arith, refl, some, sym, true, ℕ, ◌↔◌, ◌∙◌, ◌∷◌, ◌≡◌, ◌≢◌,
}
use quark_lang.Cgen.Meta.Walk.Seen.{or_true}
use quark_lang.CtxPool.{
  Pool, Step, TakesCtx, free_ctx, has_link, moving, new_pool, outside, put_link, put_load,
  put_retry, put_saw, put_start, put_swap, putting, saw, take_clear, take_load, take_none,
  take_read, take_retry, take_swap, unborn,
}
use quark_lang.Lexer.{next}
use quark_lang.CtxPool.Invariant.{
  Chain, Distinct, Inv, PhaseOk, clear_link-Inv, give_ctx-Inv, goto_phase-Inv, holds, make_ctx-Inv,
  set_link-Inv, start_put-Inv, take_ctx-Inv,
}

-- The runs of any number of threads of which only `p` takes contexts.
pub data RunOne (p : ℕ) : Pool → Type 0 where
  at_start : RunOne p new_pool
  one_step :
      {s u : Pool} (t : ℕ) (st : Step t s u) → (TakesCtx st → t ≡ p) → RunOne p s → RunOne p u

new_pool-Inv : (p : ℕ) → Inv p new_pool
unfolding new_pool
new_pool-Inv p = record {
  free = [];
  chain = refl;
  distinct = tt;
  members = λ c. (λ e. cc, λ e. cc);
  later = λ c l. refl;
  phases = λ t. tt;
}

-- The first context of the pool is free.
head-free : (p : ℕ) (s : Pool) → Inv p s → (c : ℕ) → s.head ≡ some c → s.holder c ≡ free_ctx
head-free p s h c e = go h.free h.chain h.members
  where
    go :
        (cs : List ℕ)
        → Chain s.link s.head cs
        → ((j : ℕ) → (holds j cs ≡ true) ↔ (s.holder j ≡ free_ctx))
        → s.holder c ≡ free_ctx
    go [] q m = absurd (cc)
    go (x ∷ cs) (q, r) m =
        let same : x ≡ c = cc in
        subst (λ y. s.holder y ≡ free_ctx) same ((m x).0 (rw (==_refl x) refl))

-- The context behind the first one is free too, and another one.
next-free :
    (p : ℕ) (s : Pool)
    → Inv p s
    → (k c : ℕ) → s.head ≡ some k
    → s.link k ≡ some c
    → (s.holder c ≡ free_ctx) × (c ≢ k)
next-free p s h k c e i = go h.free h.chain h.distinct h.members
  where
    go :
        (cs : List ℕ)
        → Chain s.link s.head cs
        → Distinct cs
        → ((j : ℕ) → (holds j cs ≡ true) ↔ (s.holder j ≡ free_ctx))
        → (s.holder c ≡ free_ctx) × (c ≢ k)
    go [] q d m = absurd (cc)
    go (x ∷ []) (q, r) d m = let same : x ≡ k = cc in let n = ap s.link same in absurd (cc)
    go (x ∷ y ∷ cs) (q, (r, _)) (d, _) m =
        let same : x ≡ k = cc in
        let n = ap s.link same in
        let next : y ≡ c = cc in
        (
          subst (λ z. s.holder z ≡ free_ctx) next ((m y).0 (rw (==_refl y, or_true) refl)),
          λ eq. ground arith,
        )

Step-Inv : (p t : ℕ) {s u : Pool} (st : Step t s u) → (TakesCtx st → t ≡ p) → Inv p s → Inv p u
Step-Inv p t {s} (take_none e d) own h = make_ctx-Inv p s h
Step-Inv p t {s} (take_load c e d) own h =
    goto_phase-Inv p t (saw c) s h (own tt, head-free p s h c d)
Step-Inv p t {s} (take_read c e) own h =
    let (_, free) = subst (PhaseOk p s t) e (h.phases t) in
    goto_phase-Inv p t (has_link c (s.link c)) s h (own tt, free, refl)
Step-Inv p t {s} (take_swap c l e d) own h =
    let (_, free, next) = subst (PhaseOk p s t) e (h.phases t) in
    take_ctx-Inv p s h t c l (own tt) free next d
Step-Inv p t {s} (take_clear c e) own h =
    clear_link-Inv p s h t c (subst (PhaseOk p s t) e (h.phases t))
Step-Inv p t {s} (take_retry c l e d) own h = goto_phase-Inv p t outside s h tt
Step-Inv p t {s} (put_start c e d) own h = start_put-Inv p s h t c d
Step-Inv p t {s} (put_load c e) own h =
    goto_phase-Inv p t (put_saw c s.head) s h (subst (PhaseOk p s t) e (h.phases t))
Step-Inv p t {s} (put_link c l e) own h =
    set_link-Inv p s h t c l (subst (PhaseOk p s t) e (h.phases t))
Step-Inv p t {s} (put_swap c l e d) own h =
    let (mine, next) = subst (PhaseOk p s t) e (h.phases t) in
    give_ctx-Inv p s h t c mine (next ∙ sym d)
Step-Inv p t {s} (put_retry c l e d) own h =
    let (mine, _) = subst (PhaseOk p s t) e (h.phases t) in goto_phase-Inv p t (putting c) s h mine

RunOne-Inv : (p : ℕ) {s : Pool} → RunOne p s → Inv p s
RunOne-Inv p at_start = new_pool-Inv p
RunOne-Inv p (one_step t st own r) = Step-Inv p t st own (RunOne-Inv p r)

-- A context that a step takes was in the hands of nobody, and the pool begins afterwards with a context
-- that is free, or is empty; a step that hands a context out, or puts one back, does so with one of its
-- thread's own.
abbrev pub IsFair : {t : ℕ} {s u : Pool} → Step t s u → Type 0
IsFair {s = s} (take_none e d) = s.holder s.made ≡ unborn
IsFair {s = s} (take_swap h l e d) =
    (s.holder h ≡ free_ctx) × ((c : ℕ) → l ≡ some c → (s.holder c ≡ free_ctx) × (c ≢ h))
IsFair {t} {s = s} (take_clear h e) = s.holder h ≡ moving t
IsFair {t} {s = s} (put_swap c h e d) = s.holder c ≡ moving t
IsFair _ = Unit

-- Where only one thread takes contexts, every step that takes a context, hands it out or puts one back
-- is fair, in every run of any number of threads.
pub RunOne-IsFair :
    (p : ℕ) {s u : Pool}
    → RunOne p s
    → (t : ℕ) (st : Step t s u) → (TakesCtx st → t ≡ p)
    → IsFair st
RunOne-IsFair p {s} r t st own = go st own (RunOne-Inv p r)
  where
    go : {u : Pool} (st : Step t s u) → (TakesCtx st → t ≡ p) → Inv p s → IsFair st
    go (take_none e d) own h = h.later s.made (omega arith)
    go (take_load c e d) own h = tt
    go (take_read c e) own h = tt
    go (take_swap c l e d) own h =
        let (_, free, next) = subst (PhaseOk p s t) e (h.phases t) in
        (free, λ k i. next-free p s h c k d (next ∙ i))
    go (take_clear c e) own h = subst (PhaseOk p s t) e (h.phases t)
    go (take_retry c l e d) own h = tt
    go (put_start c e d) own h = tt
    go (put_load c e) own h = tt
    go (put_link c l e) own h = tt
    go (put_swap c l e d) own h = (subst (PhaseOk p s t) e (h.phases t)).0
    go (put_retry c l e d) own h = tt
