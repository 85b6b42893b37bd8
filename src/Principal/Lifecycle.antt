-- ===== src/Principal/Lifecycle.antt =====
-- The life cycle of a principal under `transition`.
use moesegfault_indentity.Base.{◌≡◌, refl, false, ok}
use moesegfault_indentity.Principal.{
  PrincipalState, active, suspended, pending_deletion, deleted, transition, may_authenticate,
}

-- One accepted call of `transition`.
pub data Step : PrincipalState → PrincipalState → Type 0 where
  step : {s t : PrincipalState} → transition s t ≡ ok t → Step s t

pub data Reach (s : PrincipalState) : PrincipalState → Type 0 where
  here : Reach s s
  next : {t u : PrincipalState} → Reach s t → Step t u → Reach s u

-- How far a state is from deletion: it never grows again once deletion is pending.
abbrev pub IsDoomed : PrincipalState → Type 0
IsDoomed active = ⊥
IsDoomed suspended = ⊥
IsDoomed pending_deletion = Unit
IsDoomed deleted = Unit

Step-IsDoomed : (s t : PrincipalState) → transition s t ≡ ok t → IsDoomed s → IsDoomed t
unfolding transition
Step-IsDoomed active t h d = elim d [ ]
Step-IsDoomed suspended t h d = elim d [ ]
Step-IsDoomed pending_deletion active h d = cc
Step-IsDoomed pending_deletion suspended h d = cc
Step-IsDoomed pending_deletion pending_deletion h d = tt
Step-IsDoomed pending_deletion deleted h d = tt
Step-IsDoomed deleted active h d = cc
Step-IsDoomed deleted suspended h d = cc
Step-IsDoomed deleted pending_deletion h d = cc
Step-IsDoomed deleted deleted h d = tt

Reach-IsDoomed : {s t : PrincipalState} → Reach s t → IsDoomed s → IsDoomed t
Reach-IsDoomed here d = d
Reach-IsDoomed (next {t = t} {u = u} r (step h)) d = Step-IsDoomed t u h (Reach-IsDoomed r d)

IsDoomed-may_not : (s : PrincipalState) → IsDoomed s → may_authenticate s ≡ false
unfolding may_authenticate
IsDoomed-may_not active d = elim d [ ]
IsDoomed-may_not suspended d = elim d [ ]
IsDoomed-may_not pending_deletion d = refl
IsDoomed-may_not deleted d = refl

-- Once its deletion is pending or done, no sequence of accepted transitions lets a principal
-- authenticate again.
pub doomed_never_authenticates :
    {s t : PrincipalState} → IsDoomed s → Reach s t → may_authenticate t ≡ false
doomed_never_authenticates {t = t} d r = IsDoomed-may_not t (Reach-IsDoomed r d)
