-- ===== src/Registry/Exec/Rules.antt =====
-- Invariants of actions: one rule for each way to build an action. `Q` is what a result that is no
-- error satisfies.
use sidecar_agent.Prelude.{Bool, true, false, Option, none, some, List, ◌≡◌, refl, if◌then◌else◌}
use sidecar_agent.Text.{Text}
use sidecar_agent.Model.Error.{Error, Result, ok, err}
use sidecar_agent.Model.Service.{LocalService}
use sidecar_agent.Registry.Consul.{Call, Outside, History}
use sidecar_agent.Registry.Exec.{
  State, Exec, pure, fail, lift, check, proceed, ask, ◌>>=◌, perform, now, random_bytes, get_value,
  get_services, get_entries, count,
}

abbrev pub Holds : {A : Type 0} → (A → Type 0) → Result A → Type 0
Holds Q (ok a) = Q a
Holds Q (err e) = Unit

abbrev pub Services : Type 0
Services = List (Text × LocalService)

-- `P` speaks of the map of services alone.
pub record Keeps {A : Type 0} (P : Services → Type 0) (Q : A → Type 0) (m : Exec A) : Type 0 where
  pub state : (s : State) → P s.local_services → P (m s).1.local_services
  pub result : (s : State) → P s.local_services → Holds Q (m s).0

abbrev pub Any : {A : Type 0} → A → Type 0
Any a = Unit

module _ {A : Type 0} {P : Services → Type 0} {Q : A → Type 0} where
  pub Keeps-pure : (a : A) → Q a → Keeps P Q (pure a)
  Keeps-pure a q = record { state = λ s h. h; result = λ s h. q }

  pub Keeps-fail : (e : Error) → Keeps P Q (fail e)
  Keeps-fail e = record { state = λ s h. h; result = λ s h. tt }

  pub Keeps-if :
      (b : Bool) (m n : Exec A)
      → (b ≡ true → Keeps P Q m)
      → (b ≡ false → Keeps P Q n)
      → Keeps P Q (if b then m else n)
  Keeps-if true m n km kn = km refl
  Keeps-if false m n km kn = kn refl

module _ {A B : Type 0} {P : Services → Type 0} {Q : A → Type 0} {R : B → Type 0} (f : A → Exec B)
    (kf : (a : A) → Q a → Keeps P R (f a)) where
  proceed_state :
      (r : Result A) (s : State)
      → Holds Q r
      → P s.local_services
      → P (proceed r f s).1.local_services
  proceed_state (ok a) s q h = (kf a q).state s h
  proceed_state (err e) s q h = h

  proceed_result :
      (r : Result A) (s : State) → Holds Q r → P s.local_services → Holds R (proceed r f s).0
  proceed_result (ok a) s q h = (kf a q).result s h
  proceed_result (err e) s q h = tt

  Keeps-bind : (m : Exec A) → Keeps P Q m → Keeps P R (m >>= f)
  Keeps-bind m km = record {
    state = λ s h. proceed_state (m s).0 (m s).1 (km.result s h) (km.state s h);
    result = λ s h. proceed_result (m s).0 (m s).1 (km.result s h) (km.state s h);
  }

-- One step, then the rest of the block.
infixr 20 ◌▷◌
pub ◌▷◌ :
    {A B : Type 0} {P : Services → Type 0} {Q : A → Type 0} {R : B → Type 0} {m : Exec A}
    {f : A → Exec B}
    → Keeps P Q m
    → ((a : A) → Q a → Keeps P R (f a))
    → Keeps P R (m >>= f)
◌▷◌ {m = m} {f = f} km kf = Keeps-bind f kf m km

-- A result that may be an error, and a Go error that is `nil`: the rest may use that.
pub Keeps-lift :
    {A : Type 0} {P : Services → Type 0} (r : Result A) → Keeps P (λ a. r ≡ ok a) (lift r)
Keeps-lift (ok a) = record { state = λ s h. h; result = λ s h. refl }
Keeps-lift (err e) = record { state = λ s h. h; result = λ s h. tt }

pub Keeps-check :
    {P : Services → Type 0} (o : Option Error) → Keeps P (λ (u : Unit {0}). o ≡ none) (check o)
Keeps-check none = record { state = λ s h. h; result = λ s h. refl }
Keeps-check (some e) = record { state = λ s h. h; result = λ s h. tt }

Any-Holds : {A : Type 0} (r : Result A) → Holds Any r
Any-Holds (ok a) = tt
Any-Holds (err e) = tt

-- A call to the outside leaves the map alone.
module _ {P : Services → Type 0} where
  Keeps-ask :
      {A : Type 0} (call : Call) (answer : History → Result A) → Keeps P Any (ask call answer)
  Keeps-ask call answer = record { state = λ s h. h; result = λ s h. Any-Holds (answer s.history) }

  pub Keeps-perform : (o : Outside) (call : Call) → Keeps P Any (perform o call)
  unfolding perform
  Keeps-perform o call = Keeps-ask call _

  pub Keeps-now : (o : Outside) → Keeps P Any (now o)
  unfolding now
  Keeps-now o = Keeps-ask _ _

  pub Keeps-random_bytes : (o : Outside) → Keeps P Any (random_bytes o)
  unfolding random_bytes
  Keeps-random_bytes o = Keeps-ask _ _

  pub Keeps-get_value : (o : Outside) (key : Text) → Keeps P Any (get_value o key)
  unfolding get_value
  Keeps-get_value o key = Keeps-ask _ _

  pub Keeps-get_services : (o : Outside) → Keeps P Any (get_services o)
  unfolding get_services
  Keeps-get_services o = Keeps-ask _ _

  pub Keeps-get_entries :
      (o : Outside) (name : Text) (passing_only : Bool)
      → Keeps P Any (get_entries o name passing_only)
  unfolding get_entries
  Keeps-get_entries o name passing_only = Keeps-ask _ _

  pub Keeps-count : (call : Call) → Keeps P Any (count call)
  unfolding count
  Keeps-count call = Keeps-ask _ _
