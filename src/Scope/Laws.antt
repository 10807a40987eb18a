-- ===== src/Scope/Laws.antt =====
-- internal/lang/eval.go: what `declare`, `set` and `get` of a scope do to the variables.
use mathlib.Core.Path.{subst}
use quark_lang.Base.{
  Bool, Bool-cases, Bytes, List, Option, Option-cases, [], ap, arith, equal, equal_iff, equal_refl,
  false, get_elem?, get_elem?-set_ne, get_elem?-set_self, if◌then◌else◌, inl, inr, insert, length,
  lookup, lookup-insert, ltb, ltb→lt, none, refl, set, some, suc, sym, true, zero, ℕ, ◌++◌, ◌<◌,
  ◌∙◌, ◌∷◌, ◌≡◌, ◌≢◌,
}
use quark_lang.Base.Result.{>>=-eq-ok, Result, err, ok}
use quark_lang.Scope.{
  Frame, ScopeError, absent, entry, get_at, get_var, is_first, no_slot, param_index, place,
  place_in, set_var, shift, slot, write_slot,
}

shift-none : (o : Option ℕ) → shift o ≡ none → o ≡ none
shift-none none e = refl
shift-none (some i) e = cc

shift-some : (o : Option ℕ) {i : ℕ} → shift o ≡ some i → (k : ℕ) × (o ≡ some k) × (suc k ≡ i)
shift-some none e = cc
shift-some (some k) e = (k, refl, cc)

abbrev pub IsAt : Bytes → List Bytes → ℕ → Type 0
IsAt name names i = (i < length names) × (get_elem? names i ≡ some name)

pub param_index-IsAt :
    (name : Bytes) (names : List Bytes) {i : ℕ}
    → param_index name names ≡ some i
    → IsAt name names i
unfolding param_index
param_index-IsAt name [] e = cc
param_index-IsAt name (n ∷ names) {i} e = elim (Bool-cases (equal n name)) [
  | inl h ↦
      let z : 0 ≡ i = cc (rw h at e) in
      subst (IsAt name (n ∷ names)) z (omega arith, ap some ((equal_iff n name).0 h))
  | inr h ↦
      let (k, p, q) = shift-some (param_index name names) (rw h at e) in
      let (l, g) = param_index-IsAt name names p in subst (IsAt name (n ∷ names)) q (omega arith, g)
]

pub param_index-append :
    (n : Bytes) (names : List Bytes) (name : Bytes)
    → param_index n names ≡ none
    → param_index n (names ++ name ∷ []) ≡ (if equal name n then some (length names) else none)
unfolding param_index
param_index-append n [] name e = refl
param_index-append n (m ∷ names) name e = elim (Bool-cases (equal m n)) [
  | inl h ↦ absurd (ne (rw h at e))
  | inr h ↦
      rw (h, param_index-append n names name (shift-none _ (rw h at e))) (shifted (equal name n))
]
  where
    ne : ¬ (some zero ≡ none)
    ne e = cc

    shifted :
        (b : Bool)
        → shift (if b then some (length names) else none)
          ≡ (if b then some (suc (length names)) else none)
    shifted true = refl
    shifted false = refl

pub param_index-append_some :
    (n : Bytes) (names more : List Bytes) {i : ℕ}
    → param_index n names ≡ some i
    → param_index n (names ++ more) ≡ some i
unfolding param_index
param_index-append_some n [] more e = cc
param_index-append_some n (m ∷ names) more e = elim (Bool-cases (equal m n)) [
  | inl h ↦ rw h (rw h at e)
  | inr h ↦
      let (k, p, q) = shift-some (param_index n names) (rw h at e) in
      rw (h, param_index-append_some n names more p) (ap some q)
]

-- Two names that are found in one place are one name.
slots-ne :
    (n name : Bytes) (names : List Bytes) {i j : ℕ}
    → n ≢ name
    → param_index name names ≡ some i
    → param_index n names ≡ some j
    → i ≢ j
slots-ne n name names {i} {j} ne p q e =
    let a = (param_index-IsAt name names p).1 in
    let b = (param_index-IsAt n names q).1 in
    let same : get_elem? names i ≡ get_elem? names j = ap (get_elem? names) e in
    absurd (ne (some_injective (cc)))
  where
    some_injective : some n ≡ some name → n ≡ name
    some_injective h = cc

pub equal-ne : (a b : Bytes) → b ≢ a → equal a b ≡ false
equal-ne a b n = elim (Bool-cases (equal a b)) [
  | inl e ↦ absurd (n (sym ((equal_iff a b).0 e)))
  | inr e ↦ e
]

module _ {ℓ} {V : Type ℓ} where
  -- The look at the first name finds what the search finds.
  place-param_index :
      (name : Bytes) (s : Frame V)
      → place name s ≡ place_in (lookup name s.vars) (param_index name s.param_names)
  unfolding place
  place-param_index name s = go s.param_names
    where
      go :
          (names : List Bytes)
          → (if is_first name names
              then slot 0
              else place_in (lookup name s.vars) (param_index name names))
            ≡ place_in (lookup name s.vars) (param_index name names)
      go [] = refl
      go (n ∷ names) = elim (Bool-cases (equal n name)) [ inl e ↦ rw e refl | inr e ↦ rw e refl ]

  pub place-slot :
      (name : Bytes) (s : Frame V) {i : ℕ}
      → param_index name s.param_names ≡ some i
      → place name s ≡ slot i
  place-slot name s e = place-param_index name s ∙ rw e (in_slot (lookup name s.vars))
    where
      in_slot : {i : ℕ} (o : Option V) → place_in o (some i) ≡ slot i
      in_slot none = refl
      in_slot (some v) = refl

  pub place-none :
      (name : Bytes) (s : Frame V)
      → param_index name s.param_names ≡ none
      → place name s ≡ place_in (lookup name s.vars) none
  place-none name s e = place-param_index name s ∙ rw e refl

  -- What a successful `set` has done: the name has the value, and no other name has changed.
  abbrev pub IsWritten : Bytes → V → List (Frame V) → List (Frame V) → Type ℓ
  IsWritten name v sc sc' =
      (get_var name sc' ≡ ok v) × ((n : Bytes) → n ≢ name → get_var n sc' ≡ get_var n sc)

  write_slot-ok :
      (i : ℕ) (v : V) (s s' : Frame V)
      → write_slot i v s ≡ ok s'
      → (i < length s.slots) × (record s { slots = set s.slots i v } ≡ s')
  unfolding write_slot
  write_slot-ok i v s s' e = elim (Bool-cases (ltb i (length s.slots))) [
    | inl h ↦ (ltb→lt _ _ h, cc (rw h at e))
    | inr h ↦ absurd (ne (rw h at e))
  ]
    where
      ne : ¬ (err no_slot ≡ ok s')
      ne q = cc

  -- A slot is written.
  pub slot-IsWritten :
      (name : Bytes) (v : V) (s : Frame V) (outer : List (Frame V)) {i : ℕ}
      → param_index name s.param_names ≡ some i
      → i < length s.slots
      → IsWritten name v (s ∷ outer) (record s { slots = set s.slots i v } ∷ outer)
  unfolding get_var
  slot-IsWritten name v s outer {i} e l =
      let s' = record s { slots = set s.slots i v } in
      (
        rw (place-slot name s' e, get_elem?-set_self s.slots i v l) refl,
        λ n ne. elim (Option-cases (param_index n s.param_names)) [
          | inl h ↦ rw (place-none n s' h) (entry_kept s s' (get_var n outer) (lookup n s.vars))
          | inr (j, h) ↦
              rw
                (
                  place-slot n s' h,
                  get_elem?-set_ne s.slots i j v (slots-ne n name s.param_names ne e h),
                )
                refl
        ],
      )
    where
      entry_kept :
          (s s' : Frame V) (r : Result ScopeError V) (o : Option V)
          → get_at (place_in o none) s' r ≡ get_at (place_in o none) s r
      entry_kept s s' r none = refl
      entry_kept s s' r (some x) = refl

  -- An entry of `vars` is written.
  entry-IsWritten :
      (name : Bytes) (v : V) (s : Frame V) (outer : List (Frame V))
      → param_index name s.param_names ≡ none
      → IsWritten name v (s ∷ outer) (record s { vars = insert name v s.vars } ∷ outer)
  unfolding get_var
  entry-IsWritten name v s outer e =
      let s' = record s { vars = insert name v s.vars } in
      (
        rw (place-none name s' e, lookup-insert name name v s.vars, equal_refl name) refl,
        λ n ne. elim (Option-cases (param_index n s.param_names)) [
          | inl h ↦
              rw
                (
                  place-none n s' h,
                  place-none n s h,
                  lookup-insert name n v s.vars,
                  equal-ne name n ne,
                )
                (entry_same s s' (get_var n outer) (lookup n s.vars))
          | inr (j, h) ↦ rw (place-slot n s' h, place-slot n s h) refl
        ],
      )
    where
      entry_same :
          (s s' : Frame V) (r : Result ScopeError V) (o : Option V)
          → get_at (place_in o none) s' r ≡ get_at (place_in o none) s r
      entry_same s s' r none = refl
      entry_same s s' r (some x) = refl

  -- A frame that does not know the name is passed by.
  outer-IsWritten :
      (name : Bytes) (v : V) (s : Frame V) (outer outer' : List (Frame V))
      → place name s ≡ absent
      → IsWritten name v outer outer'
      → IsWritten name v (s ∷ outer) (s ∷ outer')
  unfolding get_var
  outer-IsWritten name v s outer outer' e (h, k) =
      (rw e h, λ n ne. ap (get_at (place n s) s) (k n ne))

  -- If `set` succeeds, `get` then returns the value for that name, and for every other name what it
  -- returned before.
  pub set_var-IsWritten :
      (name : Bytes) (v : V) (sc sc' : List (Frame V))
      → set_var name v sc ≡ ok sc'
      → IsWritten name v sc sc'
  unfolding set_var
  set_var-IsWritten name v [] sc' e = cc
  set_var-IsWritten name v (s ∷ outer) sc' e =
      elim (Option-cases (param_index name s.param_names)) [
        | inr (i, h) ↦
            let (s', w, q) = >>=-eq-ok (write_slot i v s) _ (rw (place-slot name s h) at e) in
            let (l, r) = write_slot-ok i v s s' w in
            let same : record s { slots = set s.slots i v } ∷ outer ≡ sc' = cc in
            subst (IsWritten name v (s ∷ outer)) same (slot-IsWritten name v s outer h l)
        | inl h ↦ elim (Option-cases (lookup name s.vars)) [
          | inr (w, k) ↦
              let p : place name s ≡ entry w = place-none name s h ∙ rw k refl in
              let same : record s { vars = insert name v s.vars } ∷ outer ≡ sc' = cc (rw p at e) in
              subst (IsWritten name v (s ∷ outer)) same (entry-IsWritten name v s outer h)
          | inl k ↦
              let p : place name s ≡ absent = place-none name s h ∙ rw k refl in
              let (outer', q, r) = >>=-eq-ok (set_var name v outer) _ (rw p at e) in
              let same : s ∷ outer' ≡ sc' = cc in
              subst (IsWritten name v (s ∷ outer)) same
                (outer-IsWritten name v s outer outer' p (set_var-IsWritten name v outer outer' q))
        ]
      ]
