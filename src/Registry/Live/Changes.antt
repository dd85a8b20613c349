-- ===== src/Registry/Live/Changes.antt =====
-- Triples over actions that change the map and call Consul. An action that fails leaves no orphan.
use mathlib.Core.Path.{subst}
use sidecar_agent.Prelude.{Bool, true, false, Option, none, some, if◌then◌else◌, ◌≡◌, refl, sym}
use sidecar_agent.Text.{Text}
use sidecar_agent.Text.Equality.{text_key}
use sidecar_agent.Model.Error.{Error, Result, ok, err}
use sidecar_agent.Registry.Consul.{Outside}
use sidecar_agent.Registry.Exec.{State, Exec, pure, fail, check, lift, proceed, ◌>>=◌}
use sidecar_agent.Registry.Exec.Rules.{Services}
use sidecar_agent.Registry.Live.{is_live, HasEntry, Covered, NoOrphans}
use sidecar_agent.Registry.Live.Calm.{Calm}

-- What an action leaves behind.
abbrev pub Ends : {A : Type 0} → Outside → (A → State → Type 0) → Result A → State → Type 0
Ends o Q (ok a) s = Q a s
Ends o Q (err e) s = NoOrphans o s

pub record Leads (o : Outside) {A : Type 0} (P : State → Type 0) (Q : A → State → Type 0)
    (m : Exec A) : Type 0 where
  pub at : (s : State) → P s → Ends o Q (m s).0 (m s).1

-- `X` holds of the registered instances, `M` of the map.
abbrev pub Quiet : Outside → (Text → Services → Type 0) → (Services → Type 0) → State → Type 0
Quiet o X M s = Covered o X s × M s.local_services

-- There are no orphans, whatever the result.
abbrev pub Fine : {A : Type 0} → Outside → A → State → Type 0
Fine o a s = NoOrphans o s

module _ (o : Outside) {A : Type 0} {P : State → Type 0} {Q : A → State → Type 0} where
  pub Leads-pure : (a : A) → ((s : State) → P s → Q a s) → Leads o P Q (pure a)
  Leads-pure a h = record { at = λ s p. h s p }

  pub Leads-fail : (e : Error) → ((s : State) → P s → NoOrphans o s) → Leads o P Q (fail e)
  Leads-fail e h = record { at = λ s p. h s p }

  pub Leads-if :
      (b : Bool) {m n : Exec A}
      → (b ≡ true → Leads o P Q m)
      → (b ≡ false → Leads o P Q n)
      → Leads o P Q (if b then m else n)
  Leads-if true lm ln = lm refl
  Leads-if false lm ln = ln refl

module _ (o : Outside) {A B : Type 0} {Q : A → State → Type 0} {R : B → State → Type 0}
    {f : A → Exec B} (lf : (a : A) → Leads o (Q a) R (f a)) where
  Leads-proceed :
      (r : Result A) (s : State) → Ends o Q r s → Ends o R (proceed r f s).0 (proceed r f s).1
  Leads-proceed (ok a) s h = (lf a).at s h
  Leads-proceed (err e) s h = h

infixr 20 ◌▷◌
pub ◌▷◌ :
    {o : Outside} {A B : Type 0} {P : State → Type 0} {Q : A → State → Type 0}
    {R : B → State → Type 0} {m : Exec A} {f : A → Exec B}
    → Leads o P Q m
    → ((a : A) → Leads o (Q a) R (f a))
    → Leads o P R (m >>= f)
◌▷◌ {o} {m = m} lm lf = record { at = λ s p. Leads-proceed o lf (m s).0 (m s).1 (lm.at s p) }

Fine-NoOrphans :
    (o : Outside) {A : Type 0} (r : Result A) (s : State) → Ends o (Fine o) r s → NoOrphans o s
Fine-NoOrphans o (ok a) s h = h
Fine-NoOrphans o (err e) s h = h

pub leaves-NoOrphans :
    {o : Outside} {A : Type 0} {P : State → Type 0} {m : Exec A}
    → Leads o P (Fine o) m
    → (s : State) → P s
    → NoOrphans o (m s).1
leaves-NoOrphans {o} {m = m} lm s p = Fine-NoOrphans o (m s).0 (m s).1 (lm.at s p)

pub Leads-check :
    {o : Outside} {P : State → Type 0} (e : Option Error)
    → ((s : State) → P s → NoOrphans o s)
    → Leads o P (λ (u : Unit {0}). P) (check e)
Leads-check none h = record { at = λ s p. p }
Leads-check (some e) h = record { at = λ s p. h s p }

pub Leads-lift :
    {o : Outside} {A : Type 0} {P : State → Type 0} (r : Result A)
    → ((s : State) → P s → NoOrphans o s)
    → Leads o P (λ a. P) (lift r)
Leads-lift (ok a) h = record { at = λ s p. p }
Leads-lift (err e) h = record { at = λ s p. h s p }

-- From a stronger condition.
pub weaken :
    {o : Outside} {A : Type 0} {P : State → Type 0} {Q : A → State → Type 0} {m : Exec A}
    (P' : State → Type 0)
    → ((s : State) → P s → P' s)
    → Leads o P' Q m
    → Leads o P Q m
weaken P' h lm = record { at = λ s p. lm.at s (h s p) }

-- A calm action keeps what is known.
module _ (o : Outside) (M : Services → Type 0) {X : Text → Services → Type 0}
    (entry : (id : Text) (m : Services) → X id m → HasEntry id m) {A : Type 0} where
  facts_left :
      (r : Result A) (s' s : State)
      → s'.local_services ≡ s.local_services
      → ((id : Text) → is_live o id s'.history ≡ true → is_live o id s.history ≡ true)
      → Quiet o X M s
      → Ends o (λ (a : A). Quiet o X M) r s'
  facts_left (ok a) s' s e live q =
      ((λ id l. subst (X id) (sym e) (q.0 id (live id l))), subst M (sym e) q.1)
  facts_left (err x) s' s e live q =
      λ id l. subst (HasEntry id) (sym e) (entry id s.local_services (q.0 id (live id l)))

  pub Calm-Leads : {m : Exec A} → Calm o m → Leads o (Quiet o X M) (λ a. Quiet o X M) m
  Calm-Leads {m} calm = record {
    at = λ s q. facts_left (m s).0 (m s).1 s ((calm.at s).services) ((calm.at s).live) q;
  }
