-- ===== src/Scope/Tests.antt =====
-- internal/lang/eval.go: a call's scope inside a loop's scope.

use quark_lang.Base.{List, [], arith, codes, refl, ℕ, ◌∷◌, ◌≡◌}
use quark_lang.Base.Result.{ok}
use quark_lang.Scope.{Frame, declare, get_var, new_frame, set_params, set_var}
use quark_lang.Scope.Declare.{Agree, Declares, HasSlots, declare-Declares, set_var-get_var}
use quark_lang.Scope.Laws.{IsWritten, set_var-IsWritten}

abbrev call_frame : Frame ℕ
call_frame = set_params (codes "x" ∷ codes "y" ∷ []) (1 ∷ 2 ∷ []) new_frame

abbrev loop_frame : Frame ℕ
loop_frame = record new_frame { vars = (codes "item", 9) ∷ [] }

abbrev chain : List (Frame ℕ)
chain = loop_frame ∷ call_frame ∷ []

call_frame-HasSlots : HasSlots call_frame
call_frame-HasSlots = record { aligned = refl; among = omega arith }

set_example :
    IsWritten (codes "y") 5 chain (loop_frame ∷ record call_frame { slots = 1 ∷ 5 ∷ [] } ∷ [])
unfolding set_var
set_example =
    set_var-IsWritten (codes "y") 5 chain
      (loop_frame ∷ record call_frame { slots = 1 ∷ 5 ∷ [] } ∷ []) refl

declare_example :
    (s' : Frame ℕ) × (declare (codes "z") 7 call_frame ≡ ok s')
    × Declares (codes "z") 7 call_frame s' (loop_frame ∷ [])
declare_example = declare-Declares (codes "z") 7 call_frame (loop_frame ∷ []) call_frame-HasSlots

set_get_example : Agree (codes "w") (get_var (codes "w") chain) (set_var (codes "w") 3 chain)
set_get_example =
    set_var-get_var (codes "w") 3 chain
      (record { aligned = refl; among = omega arith }, (call_frame-HasSlots, tt))
