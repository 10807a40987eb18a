-- ===== src/Scope/Declare.antt =====
-- internal/lang/eval.go: what `declare` of a scope does, and when `set` and `get` succeed.

use quark_lang.Base.{
  All, Bool-cases, Bytes, List, Option, Option-cases, [], ap, arith, equal_refl, false,
  get_elem?-append_left, get_elem?-append_length, get_elem?-some, inl, inr, length, length-append,
  length-set, lookup, ltb, lt→ltb, none, refl, set, some, sym, true, ℕ, ◌++◌, ◌<◌, ◌∙◌, ◌∷◌, ◌≡◌,
  ◌≢◌, ◌≤◌,
}
use quark_lang.Base.Result.{Result, err, ok, out_of_fuel, ◌>>=◌}
use quark_lang.Scope.{
  Frame, ScopeError, assigned, declare, get_at, get_var, no_slot, param_index, place_in, set_var,
  undeclared, write_slot,
}
use quark_lang.Scope.Laws.{
  equal-ne, param_index-IsAt, param_index-append, param_index-append_some, place-none, place-slot,
  slot-IsWritten,
}

module _ {ℓ} {V : Type ℓ} where
  -- A frame has a slot for each of its names, and its parameters are among them.
  pub record HasSlots (s : Frame V) : Type 0 where
    pub aligned : length s.param_names ≡ length s.slots
    pub among : s.n_params ≤ length s.param_names

  -- What `declare` has made of the frame `s`.
  pub record Declares (name : Bytes) (v : V) (s s' : Frame V) (outer : List (Frame V))
      : Type ℓ where
    pub kept_aligned : HasSlots s'
    -- A parameter keeps the value that the call has given it.
    pub parameter : (i : ℕ) → param_index name s.param_names ≡ some i → i < s.n_params → s' ≡ s
    -- A local variable, new or declared before, has the value.
    pub local :
        ((i : ℕ) → param_index name s.param_names ≡ some i → s.n_params ≤ i)
        → get_var name (s' ∷ outer) ≡ ok v
    pub others : (n : Bytes) → n ≢ name → get_var n (s' ∷ outer) ≡ get_var n (s ∷ outer)

  declare-Declares_old :
      (name : Bytes) (v : V) (s : Frame V) (outer : List (Frame V)) {i : ℕ}
      → HasSlots s
      → param_index name s.param_names ≡ some i
      → (s' : Frame V) × (declare name v s ≡ ok s') × Declares name v s s' outer
  unfolding declare write_slot
  declare-Declares_old name v s outer {i} a e =
      let l : i < length s.slots =
        omega (arith, (param_index-IsAt name s.param_names e).0, a.aligned) in
      let w = slot-IsWritten name v s outer e l in
      elim (Bool-cases (ltb i s.n_params)) [
        | inl h ↦ (
          s,
          rw (e, h) refl,
          record {
            kept_aligned = a;
            parameter = λ j p q. refl;
            local = λ k. absurd (not_both h (k i e));
            others = λ n ne. refl;
          },
        )
        | inr h ↦ (
          record s { slots = set s.slots i v },
          rw (e, h, lt→ltb _ _ l) refl,
          record {
            kept_aligned = record {
              aligned = a.aligned ∙ sym (length-set s.slots i v);
              among = a.among;
            };
            parameter = λ j p q. absurd (not_param h (same_index p) q);
            local = λ k. w.0;
            others = w.1;
          },
        )
      ]
    where
      not_both : ltb i s.n_params ≡ true → s.n_params ≤ i → ⊥
      not_both h k = ground arith

      same_index : {j : ℕ} → param_index name s.param_names ≡ some j → i ≡ j
      same_index p = cc

      not_param : {j : ℕ} → ltb i s.n_params ≡ false → i ≡ j → j < s.n_params → ⊥
      not_param h q k = ground arith

  declare-Declares_new :
      (name : Bytes) (v : V) (s : Frame V) (outer : List (Frame V))
      → HasSlots s
      → param_index name s.param_names ≡ none
      → (s' : Frame V) × (declare name v s ≡ ok s') × Declares name v s s' outer
  unfolding declare get_var
  declare-Declares_new name v s outer a e =
      let s' : Frame V = record s {
        param_names = s.param_names ++ name ∷ [];
        slots = s.slots ++ v ∷ [];
      } in
      let found : param_index name s'.param_names ≡ some (length s.slots) =
        param_index-append name s.param_names name e ∙ rw (equal_refl name) (ap some a.aligned) in
      (
        s',
        rw e refl,
        record {
          kept_aligned = record {
            aligned = omega (
              arith,
              a.aligned,
              length-append s.param_names (name ∷ []),
              length-append s.slots (v ∷ []),
            );
            among = omega (arith, a.among, length-append s.param_names (name ∷ []));
          };
          parameter = λ j p q. absurd (not_found p);
          local = λ k. rw (place-slot name s' found, get_elem?-append_length s.slots [] v) refl;
          others = λ n ne. elim (Option-cases (param_index n s.param_names)) [
            | inl h ↦
                let absent_too : param_index n s'.param_names ≡ none =
                  param_index-append n s.param_names name h ∙ rw (equal-ne name n ne) refl in
                rw (place-none n s' absent_too, place-none n s h)
                  (entry_too s s' (get_var n outer) (lookup n s.vars))
            | inr (j, h) ↦
                let l : j < length s.slots =
                  omega (arith, (param_index-IsAt n s.param_names h).0, a.aligned) in
                rw
                  (
                    place-slot n s' (param_index-append_some n s.param_names (name ∷ []) h),
                    place-slot n s h,
                    get_elem?-append_left s.slots (v ∷ []) j l,
                  )
                  refl
          ];
        },
      )
    where
      not_found : {j : ℕ} → param_index name s.param_names ≡ some j → ⊥
      not_found p = cc

      entry_too :
          (s s' : Frame V) (r : Result ScopeError V) (o : Option V)
          → get_at (place_in o none) s' r ≡ get_at (place_in o none) s r
      entry_too s s' r none = refl
      entry_too s s' r (some x) = refl

  -- `declare` of an aligned frame succeeds and keeps it aligned. A parameter keeps the value it has;
  -- otherwise `get` returns the declared value, of a new variable as of one declared before. Every
  -- other name has the value it had.
  pub declare-Declares :
      (name : Bytes) (v : V) (s : Frame V) (outer : List (Frame V))
      → HasSlots s
      → (s' : Frame V) × (declare name v s ≡ ok s') × Declares name v s s' outer
  declare-Declares name v s outer a = elim (Option-cases (param_index name s.param_names)) [
    | inl e ↦ declare-Declares_new name v s outer a e
    | inr (i, e) ↦ declare-Declares_old name v s outer a e
  ]

  -- Both succeed, or both report the name.
  abbrev pub Agree : Bytes → Result ScopeError V → Result ScopeError (List (Frame V)) → Type 0
  Agree name (ok v) (ok sc) = Unit
  Agree name (err (undeclared n)) (err (assigned m)) = (n ≡ name) × (m ≡ name)
  Agree name _ _ = ⊥

  -- In aligned frames `set` succeeds where `get` does, and where one reports a name that is not
  -- declared, so does the other; neither reads out of the range of the slots.
  pub set_var-get_var :
      (name : Bytes) (v : V) (sc : List (Frame V))
      → All HasSlots sc
      → Agree name (get_var name sc) (set_var name v sc)
  unfolding set_var get_var
  set_var-get_var name v [] a = (refl, refl)
  set_var-get_var name v (s ∷ outer) (a, rest) =
      elim (Option-cases (param_index name s.param_names)) [
        | inr (i, h) ↦
            let l : i < length s.slots =
              omega (arith, (param_index-IsAt name s.param_names h).0, a.aligned) in
            let (x, e) = get_elem?-some s.slots i l in
            rw (place-slot name s h, e, write_slot, lt→ltb _ _ l) tt
        | inl h ↦ elim (Option-cases (lookup name s.vars)) [
          | inr (w, k) ↦ rw (place-none name s h, k) tt
          | inl k ↦ rw (place-none name s h, k) (passed _ _ (set_var-get_var name v outer rest))
        ]
      ]
    where
      passed :
          (r : Result ScopeError V) (q : Result ScopeError (List (Frame V)))
          → Agree name r q
          → Agree name r (q >>= λ outer'. ok (s ∷ outer'))
      passed r (err e) p = p
      passed r out_of_fuel p = p
      passed (ok x) (ok y) p = p
      passed (err (undeclared n)) (ok y) p = p
      passed (err (assigned n)) (ok y) p = p
      passed (err no_slot) (ok y) p = p
      passed out_of_fuel (ok y) p = p
