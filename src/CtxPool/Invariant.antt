-- ===== src/CtxPool/Invariant.antt =====
-- internal/lang/value.go: what the pool of contexts keeps while only one thread takes from it: a chain of
-- distinct free contexts, and what each thread knows of the contexts that it works with.
use mathlib.Core.Path.{subst}
use quark_lang.Base.{
  ==_iff, ==_refl, Bool, Bool-cases, List, Option, [], ap, arith, false, inl, inr, none, refl, some,
  sym, true, ℕ, ◌==◌, ◌||◌, ◌↔◌, ◌∙◌, ◌∷◌, ◌≡◌, ◌≢◌, ◌≤◌,
}
use quark_lang.CtxPool.{
  Holder, Phase, Pool, clear_link, free_ctx, give_ctx, goto_phase, has_link, in_use, make_ctx,
  moving, outside, put_at, put_linked, put_saw, putting, saw, set_link, start_put, take_ctx, took,
  unborn,
}

abbrev pub holds : ℕ → List ℕ → Bool
holds c [] = false
holds c (x ∷ xs) = x == c || holds c xs

abbrev pub Distinct : List ℕ → Type 0
Distinct [] = Unit {0}
Distinct (x ∷ xs) = (holds x xs ≡ false) × Distinct xs

-- The list of contexts that `ctxHead` and the links lead through.
abbrev pub Chain : (ℕ → Option ℕ) → Option ℕ → List ℕ → Type 0
Chain link h [] = h ≡ none
Chain link h (c ∷ cs) = (h ≡ some c) × Chain link (link c) cs

pub put_at-same {ℓ} : {A : Type ℓ} (f : ℕ → A) (k : ℕ) (v : A) → put_at f k v k ≡ v
unfolding put_at
put_at-same f k v = rw (==_refl k) refl

put_at-other {ℓ} :
    {A : Type ℓ} (f : ℕ → A) (k : ℕ) (v : A) (j : ℕ) → (j == k) ≡ false → put_at f k v j ≡ f j
unfolding put_at
put_at-other f k v j e = rw e refl

Chain-put_at :
    (link : ℕ → Option ℕ) (k : ℕ) (v h : Option ℕ) (cs : List ℕ)
    → holds k cs ≡ false
    → Chain link h cs
    → Chain (put_at link k v) h cs
Chain-put_at link k v h [] e p = p
Chain-put_at link k v h (c ∷ cs) e (p, q) = elim (Bool-cases (c == k)) [
  | inl same ↦ absurd (ground arith)
  | inr other ↦
      let rest : holds k cs ≡ false = ground arith in
      (
        p,
        subst (λ o. Chain (put_at link k v) o cs) (sym (put_at-other link k v c other))
            (Chain-put_at link k v (link c) cs rest q),
      )
]

-- What is known of a thread in a phase; `p` is the one that takes contexts.
abbrev pub PhaseOk : ℕ → Pool → ℕ → Phase → Type 0
PhaseOk p s t outside = Unit {0}
PhaseOk p s t (saw h) = (t ≡ p) × (s.holder h ≡ free_ctx)
PhaseOk p s t (has_link h l) = (t ≡ p) × (s.holder h ≡ free_ctx) × (s.link h ≡ l)
PhaseOk p s t (took h) = s.holder h ≡ moving t
PhaseOk p s t (putting c) = s.holder c ≡ moving t
PhaseOk p s t (put_saw c h) = s.holder c ≡ moving t
PhaseOk p s t (put_linked c h) = (s.holder c ≡ moving t) × (s.link c ≡ h)

-- The contexts that a thread knows of are left as they are.
abbrev Keeps : Holder → Pool → Pool → Type 0
Keeps x s u = (c : ℕ) → s.holder c ≡ x → (u.holder c ≡ x) × (u.link c ≡ s.link c)

PhaseOk-Keeps :
    (p : ℕ) (s u : Pool) (t : ℕ) (ph : Phase)
    → Keeps (moving t) s u
    → (t ≡ p → Keeps free_ctx s u)
    → PhaseOk p s t ph
    → PhaseOk p u t ph
PhaseOk-Keeps p s u t outside m f h = tt
PhaseOk-Keeps p s u t (saw h) m f (e, k) = (e, (f e h k).0)
PhaseOk-Keeps p s u t (has_link h l) m f (e, k, i) = let (a, b) = f e h k in (e, a, b ∙ i)
PhaseOk-Keeps p s u t (took h) m f k = (m h k).0
PhaseOk-Keeps p s u t (putting c) m f k = (m c k).0
PhaseOk-Keeps p s u t (put_saw c h) m f k = (m c k).0
PhaseOk-Keeps p s u t (put_linked c h) m f (k, i) = let (a, b) = m c k in (a, b ∙ i)

pub record Inv (p : ℕ) (s : Pool) : Type 0 where
  pub free : List ℕ
  pub chain : Chain s.link s.head free
  pub distinct : Distinct free
  pub members : (c : ℕ) → (holds c free ≡ true) ↔ (s.holder c ≡ free_ctx)
  pub later : (c : ℕ) → s.made ≤ c → s.holder c ≡ unborn
  pub phases : (t : ℕ) → PhaseOk p s t (s.phase t)

-- The phases behind a step of the thread `t` that leaves the others where they are.
phases-step :
    (p : ℕ) (s u : Pool) (t : ℕ) (ph : Phase)
    → u.phase ≡ put_at s.phase t ph
    → PhaseOk p u t ph
    → ((j : ℕ) → (j == t) ≡ false → Keeps (moving j) s u)
    → ((j : ℕ) → (j == t) ≡ false → j ≡ p → Keeps free_ctx s u)
    → ((j : ℕ) → PhaseOk p s j (s.phase j))
    → (j : ℕ) → PhaseOk p u j (u.phase j)
phases-step p s u t ph e own m f old j = elim (Bool-cases (j == t)) [
  | inl same ↦
      let eq : j ≡ t = (==_iff j t).0 same in
      let there : u.phase j ≡ ph =
        ap (λ g. g j) e ∙ (ap (put_at s.phase t ph) eq ∙ put_at-same s.phase t ph) in
      subst (PhaseOk p u j) (sym there) (subst (λ k. PhaseOk p u k ph) (sym eq) own)
  | inr other ↦
      let there : u.phase j ≡ s.phase j = ap (λ g. g j) e ∙ put_at-other s.phase t ph j other in
      subst (PhaseOk p u j) (sym there)
        (PhaseOk-Keeps p s u j (s.phase j) (m j other) (f j other) (old j))
]

pub goto_phase-Inv :
    (p t : ℕ) (ph : Phase) (s : Pool) → Inv p s → PhaseOk p s t ph → Inv p (goto_phase t ph s)
unfolding goto_phase
goto_phase-Inv p t ph s h own = record {
  free = h.free;
  chain = h.chain;
  distinct = h.distinct;
  members = h.members;
  later = h.later;
  phases =
      phases-step p s u t ph refl (same ph own) (λ j e c k. (k, refl)) (λ j e q c k. (k, refl))
        h.phases;
}
  where
    u : Pool
    u = goto_phase t ph s

    same : (x : Phase) → PhaseOk p s t x → PhaseOk p u t x
    same outside k = k
    same (saw c) k = k
    same (has_link c l) k = k
    same (took c) k = k
    same (putting c) k = k
    same (put_saw c l) k = k
    same (put_linked c l) k = k

Keeps-other :
    (s u : Pool) (k : ℕ) (x : Holder)
    → s.holder k ≢ x
    → ((c : ℕ) → (c == k) ≡ false → (u.holder c ≡ s.holder c) × (u.link c ≡ s.link c))
    → Keeps x s u
Keeps-other s u k x no_k same c e = elim (Bool-cases (c == k)) [
  | inl eq ↦ absurd (no_k (ap s.holder (sym ((==_iff c k).0 eq)) ∙ e))
  | inr ne ↦ let (a, b) = same c ne in (a ∙ e, b)
]

-- The free contexts after one that was not free has another holder, and is still not free.
members-put_at :
    (f : ℕ → Holder) (k : ℕ) (v : Holder) (cs : List ℕ)
    → f k ≢ free_ctx
    → v ≢ free_ctx
    → ((c : ℕ) → (holds c cs ≡ true) ↔ (f c ≡ free_ctx))
    → (c : ℕ) → (holds c cs ≡ true) ↔ (put_at f k v c ≡ free_ctx)
unfolding put_at
members-put_at f k v cs no_k no_v m c = elim (Bool-cases (c == k)) [
  | inl eq ↦
      let same : c ≡ k = (==_iff c k).0 eq in
      (
        λ h. absurd (no_k (ap f (sym same) ∙ (m c).0 h)),
        λ e. absurd (no_v (let back : v ≡ free_ctx = rw eq at e in back)),
      )
  | inr ne ↦ (λ h. rw ne ((m c).0 h), λ e. (m c).1 (rw ne at e))
]

module _ (p : ℕ) (s : Pool) (h : Inv p s) where
  open h use {free, chain, distinct, members, later, phases}

  not_free : (c t : ℕ) → s.holder c ≡ moving t → holds c free ≡ false
  not_free c t e = elim (Bool-cases (holds c free)) [
    | inl m ↦ let f = (members c).0 m in cc
    | inr m ↦ m
  ]

  other_mover : (c t j : ℕ) → s.holder c ≡ moving t → (j == t) ≡ false → s.holder c ≢ moving j
  other_mover c t j e ne d = let same : t ≡ j = cc in ground arith

  pub make_ctx-Inv : Inv p (make_ctx s)
  unfolding make_ctx put_at
  make_ctx-Inv =
      let fresh = later s.made (omega arith) in
      record {
        free = free;
        chain = chain;
        distinct = distinct;
        members = members-put_at s.holder s.made in_use free (λ e. cc) (λ e. cc) members;
        later = λ c l. ground (arith, later c (omega arith));
        phases = λ j.
            PhaseOk-Keeps p s (make_ctx s) j (s.phase j)
              (Keeps-other s (make_ctx s) s.made (moving j) (λ e. cc) (λ c ne. (rw ne refl, refl)))
              (λ q.
                Keeps-other s (make_ctx s) s.made free_ctx (λ e. cc) (λ c ne. (rw ne refl, refl)))
              (phases j);
      }

  pub start_put-Inv : (t c : ℕ) → s.holder c ≡ in_use → Inv p (start_put t c s)
  unfolding start_put put_at
  start_put-Inv t c e =
      let u = start_put t c s in
      record {
        free = free;
        chain = chain;
        distinct = distinct;
        members = members-put_at s.holder c (moving t) free (λ d. cc) (λ d. cc) members;
        later = λ k l. ground (arith, later k);
        phases =
            phases-step p s u t (putting c) refl (rw (==_refl c) refl)
              (λ j ne. Keeps-other s u c (moving j) (λ d. cc) (λ k n. (rw n refl, refl)))
              (λ j ne q. Keeps-other s u c free_ctx (λ d. cc) (λ k n. (rw n refl, refl))) phases;
      }

  pub set_link-Inv : (t c : ℕ) (l : Option ℕ) → s.holder c ≡ moving t → Inv p (set_link t c l s)
  unfolding set_link put_at
  set_link-Inv t c l e =
      let u = set_link t c l s in
      record {
        free = free;
        chain = Chain-put_at s.link c l s.head free (not_free c t e) chain;
        distinct = distinct;
        members = members;
        later = later;
        phases =
            phases-step p s u t (put_linked c l) refl (e, rw (==_refl c) refl)
              (λ j ne.
                Keeps-other s u c (moving j) (other_mover c t j e ne) (λ k n. (refl, rw n refl)))
              (λ j ne q. Keeps-other s u c free_ctx (λ d. cc) (λ k n. (refl, rw n refl))) phases;
      }

  pub give_ctx-Inv : (t c : ℕ) → s.holder c ≡ moving t → s.link c ≡ s.head → Inv p (give_ctx t c s)
  unfolding give_ctx put_at
  give_ctx-Inv t c e k =
      let u = give_ctx t c s in
      record {
        free = c ∷ free;
        chain = (refl, subst (λ o. Chain s.link o free) (sym k) chain);
        distinct = (not_free c t e, distinct);
        members = λ j. ground (arith, members j);
        later = λ j l. ground (arith, later j);
        phases =
            phases-step p s u t outside refl tt
              (λ j ne.
                Keeps-other s u c (moving j) (other_mover c t j e ne) (λ k n. (rw n refl, refl)))
              (λ j ne q. Keeps-other s u c free_ctx (λ d. cc) (λ k n. (rw n refl, refl))) phases;
      }

  -- What a swap of `newCtx` finds: the context is the first of the pool, and the next one is behind it.
  pub take_ctx-Inv :
      (t k : ℕ) (l : Option ℕ)
      → t ≡ p
      → s.holder k ≡ free_ctx
      → s.link k ≡ l
      → s.head ≡ some k
      → Inv p (take_ctx t k l s)
  unfolding take_ctx put_at
  take_ctx-Inv t k l e d i first = go free chain distinct members
    where
      go :
          (cs : List ℕ)
          → Chain s.link s.head cs
          → Distinct cs
          → ((c : ℕ) → (holds c cs ≡ true) ↔ (s.holder c ≡ free_ctx))
          → Inv p (take_ctx t k l s)
      go [] q w m = absurd (cc)
      go (x ∷ cs) (q, r) (n, w) m =
          let u = take_ctx t k l s in
          let same : x ≡ k = cc in
          record {
            free = cs;
            chain = subst (λ o. Chain s.link o cs) (ap s.link same ∙ i) r;
            distinct = w;
            members = λ c. ground (arith, m c);
            later = λ j b. ground (arith, later j);
            phases =
                phases-step p s u t (took k) refl (rw (==_refl k) refl)
                  (λ j ne. Keeps-other s u k (moving j) (λ a. cc) (λ c ne'. (rw ne' refl, refl)))
                  (λ j ne a. absurd (ground arith)) phases;
          }

  pub clear_link-Inv : (t c : ℕ) → s.holder c ≡ moving t → Inv p (clear_link t c s)
  unfolding clear_link put_at
  clear_link-Inv t c e =
      let u = clear_link t c s in
      record {
        free = free;
        chain = Chain-put_at s.link c none s.head free (not_free c t e) chain;
        distinct = distinct;
        members = members-put_at s.holder c in_use free (λ d. cc) (λ d. cc) members;
        later = λ j l. ground (arith, later j);
        phases =
            phases-step p s u t outside refl tt
              (λ j ne.
                Keeps-other s u c (moving j) (other_mover c t j e ne)
                  (λ k n. (rw n refl, rw n refl)))
              (λ j ne q. Keeps-other s u c free_ctx (λ d. cc) (λ k n. (rw n refl, rw n refl)))
              phases;
      }
