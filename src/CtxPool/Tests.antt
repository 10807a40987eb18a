-- ===== src/CtxPool/Tests.antt =====
-- Runs of two threads on the pool of contexts.

-- The thread `t` runs through `newCtx` or `putCtx` with no other thread between.
use quark_lang.Base.{none, refl, some, ℕ, ◌≡◌}
use quark_lang.CtxPool.{
  Pool, Run, Step, clear_link, give_ctx, goto_phase, has_link, in_use, make_ctx, new_pool, outside,
  put_at, put_link, put_linked, put_load, put_saw, put_start, put_swap, putting, saw, set_link,
  start_put, started, take_clear, take_ctx, take_load, take_none, take_read, take_swap, then_step,
}
use quark_lang.CtxPool.Progress.{
  Comes, InPut, InTake, alone-Comes, goto_phase-phase, granted, put_back, take_ctx-phase,
}
use quark_lang.CtxPool.Single.{IsFair, RunOne, RunOne-IsFair, at_start, one_step}
use quark_lang.CtxPool.Invariant.{put_at-same}

abbrev full_take : ℕ → ℕ → Pool → Pool
full_take t h s =
    clear_link t h
      (take_ctx t h (s.link h) (goto_phase t (has_link h (s.link h)) (goto_phase t (saw h) s)))

abbrev full_put : ℕ → ℕ → Pool → Pool
full_put t c s =
    give_ctx t c (set_link t c s.head (goto_phase t (put_saw c s.head) (start_put t c s)))

Run-take :
    (t h : ℕ) (s : Pool)
    → Run new_pool s
    → s.phase t ≡ outside
    → s.head ≡ some h
    → Run new_pool (full_take t h s)
unfolding goto_phase
Run-take t h s r e d =
    let saw_it = goto_phase-phase t (saw h) s in
    let s1 = goto_phase t (saw h) s in
    let linked_it = goto_phase-phase t (has_link h (s.link h)) s1 in
    let s2 = goto_phase t (has_link h (s.link h)) s1 in
    then_step t
      (then_step t (then_step t (then_step t r (take_load h e d)) (take_read h saw_it))
        (take_swap h (s.link h) linked_it d))
      (take_clear h (take_ctx-phase t h (s.link h) s2))

Run-put :
    (t c : ℕ) (s : Pool)
    → Run new_pool s
    → s.phase t ≡ outside
    → s.holder c ≡ in_use
    → Run new_pool (full_put t c s)
unfolding goto_phase start_put set_link
Run-put t c s r e d =
    let s1 = start_put t c s in
    let s2 = goto_phase t (put_saw c s.head) s1 in
    then_step t
      (then_step t
        (then_step t (then_step t r (put_start c e d))
          (put_load c (put_at-same s.phase t (putting c))))
        (put_link c s.head (put_at-same s1.phase t (put_saw c s.head))))
      (put_swap c s.head (put_at-same s2.phase t (put_linked c s.head)) refl)

-- The contexts 0 and 1 are made and put back; thread 0 reads the first of them and its link; thread 1
-- takes both, and puts the first back.
abbrev two_free : Pool
two_free = full_put 1 0 (full_put 1 1 (make_ctx (make_ctx new_pool)))

abbrev half_taken : Pool
half_taken = goto_phase 0 (has_link 0 (some 1)) (goto_phase 0 (saw 0) two_free)

abbrev first_back : Pool
first_back = full_put 1 0 (full_take 1 1 (full_take 1 0 half_taken))

abbrev both_hold : Pool
both_hold = take_ctx 0 0 (some 1) first_back

-- The swap of thread 0 succeeds then, and the pool begins with the context that thread 1 still uses.
shared_context : Run new_pool both_hold × (both_hold.head ≡ some 1) × (both_hold.holder 1 ≡ in_use)
unfolding new_pool make_ctx goto_phase take_ctx clear_link start_put set_link give_ctx put_at
shared_context =
    let made : Run new_pool (make_ctx (make_ctx new_pool)) =
      then_step 1 (then_step 1 started (take_none refl refl)) (take_none refl refl) in
    let one : Run new_pool (full_put 1 1 (make_ctx (make_ctx new_pool))) =
      Run-put 1 1 (make_ctx (make_ctx new_pool)) made refl refl in
    let two : Run new_pool two_free =
      Run-put 1 0 (full_put 1 1 (make_ctx (make_ctx new_pool))) one refl refl in
    let half : Run new_pool half_taken =
      then_step 0 (then_step 0 two (take_load 0 refl refl)) (take_read 0 refl) in
    let first : Run new_pool (full_take 1 0 half_taken) = Run-take 1 0 half_taken half refl refl in
    let second : Run new_pool (full_take 1 1 (full_take 1 0 half_taken)) =
      Run-take 1 1 (full_take 1 0 half_taken) first refl refl in
    let back : Run new_pool first_back =
      Run-put 1 0 (full_take 1 1 (full_take 1 0 half_taken)) second refl refl in
    (then_step 0 back (take_swap 0 (some 1) refl refl), refl, refl)

RunOne-put :
    (p t c : ℕ) (s : Pool)
    → RunOne p s
    → s.phase t ≡ outside
    → s.holder c ≡ in_use
    → RunOne p (full_put t c s)
unfolding goto_phase start_put set_link
RunOne-put p t c s r e d =
    let s1 = start_put t c s in
    let s2 = goto_phase t (put_saw c s.head) s1 in
    one_step t (put_swap c s.head (put_at-same s2.phase t (put_linked c s.head)) refl) absurd (
      one_step t (put_link c s.head (put_at-same s1.phase t (put_saw c s.head))) absurd (
        one_step t (put_load c (put_at-same s.phase t (putting c))) absurd
          (one_step t (put_start c e d) absurd r)))

abbrev one_made : Pool
one_made = make_ctx new_pool

-- Thread 1 puts the context back that thread 0 was handed, and thread 0 takes it again.
abbrev one_free : Pool
one_free = full_put 1 0 one_made

abbrev one_read : Pool
one_read = goto_phase 0 (has_link 0 none) (goto_phase 0 (saw 0) one_free)

one_read_run : RunOne 0 one_read
unfolding new_pool make_ctx goto_phase start_put set_link give_ctx put_at
one_read_run =
    let made : RunOne 0 one_made = one_step 0 (take_none refl refl) (λ _. refl) at_start in
    let free : RunOne 0 one_free = RunOne-put 0 1 0 one_made made refl refl in
    one_step 0 (take_read 0 refl) (λ _. refl) (one_step 0 (take_load 0 refl refl) (λ _. refl) free)

last_swap : Step 0 one_read (take_ctx 0 0 none one_read)
unfolding new_pool make_ctx goto_phase start_put set_link give_ctx put_at
last_swap = take_swap 0 none refl refl

RunOne-IsFair_example : IsFair last_swap
RunOne-IsFair_example = RunOne-IsFair 0 one_read_run 0 last_swap (λ _. refl)

alone-Comes_example :
    (InTake (half_taken.phase 0) → Comes 0 half_taken 5 granted)
    × (InPut (half_taken.phase 0) → Comes 0 half_taken 4 put_back)
alone-Comes_example = alone-Comes 0 half_taken
