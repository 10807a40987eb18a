-- ===== src/CtxPool/Progress.antt =====
-- internal/lang/value.go: a thread that runs alone comes to the end of `newCtx` and of `putCtx`.

-- The steps of one thread.
use quark_lang.Base.{
  ==_iff, Bool-cases, Option, Option-cases, ap, arith, inl, inr, none, refl, some, suc, ℕ, ◌==◌,
  ◌≡◌, ◌≢◌, ◌≤◌, ◌⊎◌,
}
use quark_lang.CtxPool.{
  Phase, Pool, Step, clear_link, give_ctx, goto_phase, has_link, make_ctx, outside, put_link,
  put_linked, put_load, put_retry, put_saw, put_swap, putting, saw, set_link, take_clear, take_ctx,
  take_load, take_none, take_read, take_retry, take_swap, took,
}
use quark_lang.CtxPool.Invariant.{put_at-same}

pub data Alone (t : ℕ) (s : Pool) : Pool → Type 0 where
  still : Alone t s s
  and_step : {u v : Pool} → Alone t s u → Step t u v → Alone t s v

abbrev pub step_count : {t : ℕ} {s u : Pool} → Alone t s u → ℕ
step_count still = 0
step_count (and_step r st) = suc (step_count r)

pub data Ending : Type 0 where
  granted put_back : Ending

-- The last step of `newCtx`, or that of `putCtx`.
abbrev pub IsLast : Ending → {t : ℕ} {s u : Pool} → Step t s u → Type 0
IsLast granted (take_none e d) = Unit
IsLast granted (take_clear h e) = Unit
IsLast put_back (put_swap c h e d) = Unit
IsLast _ _ = ⊥

-- The thread comes to a step of a kind, behind at most `n` others.
abbrev pub Comes : ℕ → Pool → ℕ → Ending → Type 0
Comes t s n k =
    (u : Pool) × (v : Pool) × (r : Alone t s u) × (st : Step t u v) × (step_count r ≤ n)
    × IsLast k st

first_step :
    (t : ℕ) {s u v : Pool}
    → Step t s u
    → (r : Alone t u v) → (q : Alone t s v) × (step_count q ≡ suc (step_count r))
first_step t st still = (and_step still st, refl)
first_step t st (and_step r x) = let (q, e) = first_step t st r in (and_step q x, ap suc e)

Comes-first : (t n : ℕ) (k : Ending) {s u : Pool} → Step t s u → Comes t u n k → Comes t s (suc n) k
Comes-first t n k st (v, w, r, last, b, h) =
    let (q, e) = first_step t st r in (v, w, q, last, omega arith, h)

Comes-weaken : (t n m : ℕ) (k : Ending) (s : Pool) → n ≤ m → Comes t s n k → Comes t s m k
Comes-weaken t n m k s l (v, w, r, last, b, h) = (v, w, r, last, omega arith, h)

option_cases : (a b : Option ℕ) → (a ≡ b) ⊎ (a ≢ b)
option_cases none none = inl refl
option_cases none (some y) = inr (λ e. cc)
option_cases (some x) none = inr (λ e. cc)
option_cases (some x) (some y) = elim (Bool-cases (x == y)) [
  | inl e ↦ inl (ap some ((==_iff x y).0 e))
  | inr e ↦ inr (λ q. let same : x ≡ y = cc in ground arith)
]

-- Where a thread is in `newCtx`, and where it is in `putCtx`.
abbrev pub InTake : Phase → Type 0
InTake outside = Unit
InTake (saw h) = Unit
InTake (has_link h l) = Unit
InTake (took h) = Unit
InTake _ = ⊥

abbrev pub InPut : Phase → Type 0
InPut (putting c) = Unit
InPut (put_saw c h) = Unit
InPut (put_linked c h) = Unit
InPut _ = ⊥

module _ (t : ℕ) where
  pub goto_phase-phase : (p : Phase) (s : Pool) → (goto_phase t p s).phase t ≡ p
  unfolding goto_phase
  goto_phase-phase p s = put_at-same s.phase t p

  from_took : (h : ℕ) (s : Pool) → s.phase t ≡ took h → Comes t s 0 granted
  from_took h s e = (s, clear_link t h s, still, take_clear h e, omega arith, tt)

  pub take_ctx-phase : (h : ℕ) (l : Option ℕ) (s : Pool) → (take_ctx t h l s).phase t ≡ took h
  unfolding take_ctx
  take_ctx-phase h l s = put_at-same s.phase t (took h)

  from_link :
      (h : ℕ) (l : Option ℕ) (s : Pool)
      → s.phase t ≡ has_link h l
      → s.head ≡ some h
      → Comes t s 1 granted
  from_link h l s e d =
      Comes-first t 0 granted (take_swap h l e d)
        (from_took h (take_ctx t h l s) (take_ctx-phase h l s))

  from_outside : (s : Pool) → s.phase t ≡ outside → Comes t s 3 granted
  unfolding goto_phase
  from_outside s e = elim (Option-cases s.head) [
    | inl d ↦ (s, make_ctx s, still, take_none e d, omega arith, tt)
    | inr (h, d) ↦
        let s1 = goto_phase t (saw h) s in
        let s2 = goto_phase t (has_link h (s1.link h)) s1 in
        let last = from_link h (s1.link h) s2 (goto_phase-phase (has_link h (s1.link h)) s1) d in
        Comes-first t 2 granted (take_load h e d)
          (Comes-first t 1 granted (take_read h (goto_phase-phase (saw h) s)) last)
  ]

  from_has_link : (h : ℕ) (l : Option ℕ) (s : Pool) → s.phase t ≡ has_link h l → Comes t s 4 granted
  from_has_link h l s e = elim (option_cases s.head (some h)) [
    | inl d ↦ Comes-weaken t 1 4 granted s (omega arith) (from_link h l s e d)
    | inr d ↦
        Comes-first t 3 granted (take_retry h l e d)
          (from_outside (goto_phase t outside s) (goto_phase-phase outside s))
  ]

  from_take : (ph : Phase) (s : Pool) → s.phase t ≡ ph → InTake ph → Comes t s 5 granted
  from_take outside s e k = Comes-weaken t 3 5 granted s (omega arith) (from_outside s e)
  from_take (saw h) s e k =
      let u = goto_phase t (has_link h (s.link h)) s in
      Comes-first t 4 granted (take_read h e)
        (from_has_link h (s.link h) u (goto_phase-phase (has_link h (s.link h)) s))
  from_take (has_link h l) s e k =
      Comes-weaken t 4 5 granted s (omega arith) (from_has_link h l s e)
  from_take (took h) s e k = Comes-weaken t 0 5 granted s (omega arith) (from_took h s e)
  from_take (putting c) s e k = absurd k
  from_take (put_saw c h) s e k = absurd k
  from_take (put_linked c h) s e k = absurd k

  set_link-phase : (c : ℕ) (h : Option ℕ) (s : Pool) → (set_link t c h s).phase t ≡ put_linked c h
  unfolding set_link
  set_link-phase c h s = put_at-same s.phase t (put_linked c h)

  set_link-head : (c : ℕ) (h : Option ℕ) (s : Pool) → (set_link t c h s).head ≡ s.head
  unfolding set_link
  set_link-head c h s = refl

  from_saved :
      (c : ℕ) (h : Option ℕ) (s : Pool)
      → s.phase t ≡ put_linked c h
      → s.head ≡ h
      → Comes t s 0 put_back
  from_saved c h s e d = (s, give_ctx t c s, still, put_swap c h e d, omega arith, tt)

  from_putting : (c : ℕ) (s : Pool) → s.phase t ≡ putting c → Comes t s 2 put_back
  unfolding goto_phase
  from_putting c s e =
      let s1 = goto_phase t (put_saw c s.head) s in
      let last =
        from_saved c s.head (set_link t c s.head s1) (set_link-phase c s.head s1)
          (set_link-head c s.head s1) in
      Comes-first t 1 put_back (put_load c e)
        (Comes-first t 0 put_back (put_link c s.head (goto_phase-phase (put_saw c s.head) s)) last)

  from_put_linked :
      (c : ℕ) (h : Option ℕ) (s : Pool) → s.phase t ≡ put_linked c h → Comes t s 3 put_back
  from_put_linked c h s e = elim (option_cases s.head h) [
    | inl d ↦ Comes-weaken t 0 3 put_back s (omega arith) (from_saved c h s e d)
    | inr d ↦
        Comes-first t 2 put_back (put_retry c h e d)
          (from_putting c (goto_phase t (putting c) s) (goto_phase-phase (putting c) s))
  ]

  from_put : (ph : Phase) (s : Pool) → s.phase t ≡ ph → InPut ph → Comes t s 4 put_back
  from_put (putting c) s e k = Comes-weaken t 2 4 put_back s (omega arith) (from_putting c s e)
  from_put (put_saw c h) s e k =
      Comes-first t 3 put_back (put_link c h e)
        (from_put_linked c h (set_link t c h s) (set_link-phase c h s))
  from_put (put_linked c h) s e k =
      Comes-weaken t 3 4 put_back s (omega arith) (from_put_linked c h s e)
  from_put outside s e k = absurd k
  from_put (saw h) s e k = absurd k
  from_put (has_link h l) s e k = absurd k
  from_put (took h) s e k = absurd k

-- In every state, whatever the other threads have done, a thread that is in `newCtx` and runs alone is
-- handed a context behind at most five other steps, and one that is in `putCtx` puts its context back
-- behind at most four.
pub alone-Comes :
    (t : ℕ) (s : Pool)
    → (InTake (s.phase t) → Comes t s 5 granted) × (InPut (s.phase t) → Comes t s 4 put_back)
alone-Comes t s = (from_take t (s.phase t) s refl, from_put t (s.phase t) s refl)
