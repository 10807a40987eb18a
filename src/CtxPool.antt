-- ===== src/CtxPool.antt =====
-- internal/lang/value.go: the pool of execution contexts, `newCtx` and `putCtx`, on which the threads
-- of a program work at once. A context is known by a number, which stands for the pointer to it; the
-- steps are the accesses to shared memory, and threads are interleaved at them.
pub mod Invariant
pub mod Single
pub mod Progress
mod Tests
use quark_lang.Base.{Option, if◌then◌else◌, none, some, suc, ℕ, ◌==◌, ◌≡◌, ◌≢◌}

-- What a context is doing: it is not made yet, it stands in the pool, a call uses it, or a thread has it
-- in `newCtx`, behind the swap, or in `putCtx`.
pub data Holder : Type 0 where
  unborn free_ctx in_use : Holder
  moving : ℕ → Holder

-- Where a thread is in the loops of `newCtx` and `putCtx`.
pub data Phase : Type 0 where
  outside : Phase
  -- Behind `h := in.ctxHead.Load()`.
  saw : ℕ → Phase
  -- Behind the read of `h.link`.
  has_link : ℕ → Option ℕ → Phase
  -- Behind the successful swap of `newCtx`, before `ctx.link = nil`.
  took : ℕ → Phase
  -- In `putCtx`, before `h := in.ctxHead.Load()`, behind it, and behind `ctx.link = h`.
  putting : ℕ → Phase
  put_saw put_linked : ℕ → Option ℕ → Phase

-- `ctxHead`, the field `link` of the contexts, how many there are, and the threads. Of `holder` the code
-- knows nothing: it records who works with a context.
pub record Pool : Type 0 where
  pub head : Option ℕ
  pub link : ℕ → Option ℕ
  pub made : ℕ
  pub phase : ℕ → Phase
  pub holder : ℕ → Holder

-- A write to one entry.
unfoldable pub put_at {ℓ} : {A : Type ℓ} → (ℕ → A) → ℕ → A → ℕ → A
put_at f k v j = if j == k then v else f j

unfoldable pub new_pool : Pool
new_pool = record {
  head = none;
  link = λ c. none;
  made = 0;
  phase = λ t. outside;
  holder = λ c. unborn;
}

-- A new context, where the pool is empty; that its `link` is set to nil is seen by no other thread.
unfoldable pub make_ctx : Pool → Pool
unfolding put_at
make_ctx s = record s { made = suc s.made; holder = put_at s.holder s.made in_use }

-- The thread `t` goes on to a phase.
unfoldable pub goto_phase : ℕ → Phase → Pool → Pool
unfolding put_at
goto_phase t p s = record s { phase = put_at s.phase t p }

-- The successful `CompareAndSwap(h, h.link)` of `newCtx`.
unfoldable pub take_ctx : ℕ → ℕ → Option ℕ → Pool → Pool
unfolding put_at
take_ctx t h l s = record s {
  head = l;
  phase = put_at s.phase t (took h);
  holder = put_at s.holder h (moving t);
}

-- `ctx.link = nil`, behind which the context is handed out.
unfoldable pub clear_link : ℕ → ℕ → Pool → Pool
unfolding put_at
clear_link t h s = record s {
  link = put_at s.link h none;
  phase = put_at s.phase t outside;
  holder = put_at s.holder h in_use;
}

-- A call of `putCtx` for a context in use.
unfoldable pub start_put : ℕ → ℕ → Pool → Pool
unfolding put_at
start_put t c s = record s {
  phase = put_at s.phase t (putting c);
  holder = put_at s.holder c (moving t);
}

-- `ctx.link = h`.
unfoldable pub set_link : ℕ → ℕ → Option ℕ → Pool → Pool
unfolding put_at
set_link t c h s = record s { link = put_at s.link c h; phase = put_at s.phase t (put_linked c h) }

-- The successful `CompareAndSwap(h, ctx)` of `putCtx`.
unfoldable pub give_ctx : ℕ → ℕ → Pool → Pool
unfolding put_at
give_ctx t c s = record s {
  head = some c;
  phase = put_at s.phase t outside;
  holder = put_at s.holder c free_ctx;
}

-- A step of the thread `t`.
pub data Step (t : ℕ) (s : Pool) : Pool → Type 0 where
  take_none : s.phase t ≡ outside → s.head ≡ none → Step t s (make_ctx s)
  take_load : (h : ℕ) → s.phase t ≡ outside → s.head ≡ some h → Step t s (goto_phase t (saw h) s)
  take_read : (h : ℕ) → s.phase t ≡ saw h → Step t s (goto_phase t (has_link h (s.link h)) s)
  take_swap :
      (h : ℕ) (l : Option ℕ)
      → s.phase t ≡ has_link h l
      → s.head ≡ some h
      → Step t s (take_ctx t h l s)
  take_clear : (h : ℕ) → s.phase t ≡ took h → Step t s (clear_link t h s)
  take_retry :
      (h : ℕ) (l : Option ℕ)
      → s.phase t ≡ has_link h l
      → s.head ≢ some h
      → Step t s (goto_phase t outside s)
  put_start : (c : ℕ) → s.phase t ≡ outside → s.holder c ≡ in_use → Step t s (start_put t c s)
  put_load : (c : ℕ) → s.phase t ≡ putting c → Step t s (goto_phase t (put_saw c s.head) s)
  put_link : (c : ℕ) (h : Option ℕ) → s.phase t ≡ put_saw c h → Step t s (set_link t c h s)
  put_swap :
      (c : ℕ) (h : Option ℕ) → s.phase t ≡ put_linked c h → s.head ≡ h → Step t s (give_ctx t c s)
  put_retry :
      (c : ℕ) (h : Option ℕ)
      → s.phase t ≡ put_linked c h
      → s.head ≢ h
      → Step t s (goto_phase t (putting c) s)

-- The steps of `newCtx`.
abbrev pub TakesCtx : {t : ℕ} {s u : Pool} → Step t s u → Type 0
TakesCtx (take_none e d) = Unit
TakesCtx (take_load h e d) = Unit
TakesCtx (take_read h e) = Unit
TakesCtx (take_swap h l e d) = Unit
TakesCtx (take_clear h e) = Unit
TakesCtx (take_retry h l e d) = Unit
TakesCtx _ = ⊥

-- The runs of any number of threads.
pub data Run (s : Pool) : Pool → Type 0 where
  started : Run s s
  then_step : {u v : Pool} (t : ℕ) → Run s u → Step t u v → Run s v
