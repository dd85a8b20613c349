-- ===== src/Discovery/Spacing.antt =====
-- Publications are spaced and each differs from the one before.
use mathlib.Core.Path.{subst}
use sidecar_agent.Prelude.{
  ℕ, suc, ◌+◌, ◌≤◌, false, Option, none, some, List, [], ◌∷◌, All, ◌≡◌, ◌≢◌, refl, ap, arith,
  Bool-cases, inl, inr,
}
use sidecar_agent.Prelude.Int.{ℤ, pos, negsuc}
use sidecar_agent.Text.{Text, text_eq}
use sidecar_agent.Text.Equality.{text_eq_iff}
use sidecar_agent.Model.Error.{Error, Result, ok, err}
use sidecar_agent.Model.Service.{ServiceInstance}
use sidecar_agent.Discovery.{
  elapsed_below, Watcher, Round, Outcome, unchanged, debounced, published, failed, too_soon,
  after_update, publish_changed, after_hash, after_discover, refresh_once,
}

-- `at` is not before `t` and the gap; a negative gap allows it to be earlier.
abbrev pub NotBefore : ℤ → ℕ → ℕ → Type 0
NotBefore (pos gap) t at = t + gap ≤ at
NotBefore (negsuc gap) t at = t ≤ at + suc gap

NotBefore-later :
    (gap : ℤ) (t since now : ℕ) → NotBefore gap t since → since ≤ now → NotBefore gap t now
NotBefore-later (pos gap) t since now h c = omega (arith, h, c)
NotBefore-later (negsuc gap) t since now h c = omega (arith, h, c)

NotBefore-elapsed :
    (gap : ℤ) (t since : ℕ) → elapsed_below since t gap ≡ false → NotBefore gap t since
NotBefore-elapsed (pos gap) t since h = ground (arith, h)
NotBefore-elapsed (negsuc gap) t since h = ground (arith, h)

pub record Publication : Type 0 where
  pub instances : List ServiceInstance
  pub fingerprint : Text
  pub at : ℕ

module _ {W : Type 0} (hash_instances : List ServiceInstance → Result Text)
    (on_update : List ServiceInstance → W → Option Error × W) where
  -- What the refreshes of a sequence publish, whoever asked for them: the ticks of `Run` and the
  -- calls of `RefreshNow` share the state and take the lock one after the other.
  abbrev noted : Watcher → Outcome → List Publication → List Publication
  noted next (published instances) rest = elim next.last_publish_at [
    | none ↦ rest
    | some time ↦
        record { instances = instances; fingerprint = next.last_fingerprint; at = time } ∷ rest
  ]
  noted next unchanged rest = rest
  noted next debounced rest = rest
  noted next (failed e) rest = rest

  abbrev pub publications : Watcher → W → List Round → List Publication
  publications w world [] = []
  publications w world (r ∷ rounds) =
      let ((next, outcome), after) = refresh_once hash_instances on_update w r world in
      noted next outcome (publications next after rounds)

  -- The first of the list comes late enough after the state's publication and differs from it, and so on.
  abbrev pub Spaced : ℤ → Text → Option ℕ → List Publication → Type 0
  Spaced gap fingerprint last [] = Unit
  Spaced gap fingerprint last (p ∷ ps) =
      (p.fingerprint ≢ fingerprint)
      × ((t : ℕ) → last ≡ some t → NotBefore gap t p.at)
      × Spaced gap p.fingerprint (some p.at) ps

  -- What one refresh may do.
  abbrev Sound : Watcher → Round → Watcher → Outcome → Type 0
  Sound w r next unchanged = next ≡ w
  Sound w r next debounced = next ≡ w
  Sound w r next (failed e) = next ≡ w
  Sound w r next (published instances) =
      (next ≡ record w { last_fingerprint = next.last_fingerprint; last_publish_at = some r.now })
      × (next.last_fingerprint ≢ w.last_fingerprint)
      × ((t : ℕ) → w.last_publish_at ≡ some t → NotBefore w.debounce_interval t r.since)

  late_enough :
      (w : Watcher) (since : ℕ)
      → too_soon w since ≡ false
      → (t : ℕ) → w.last_publish_at ≡ some t
      → NotBefore w.debounce_interval t since
  unfolding too_soon
  late_enough w since h t e = NotBefore-elapsed w.debounce_interval t since (ground (arith, h, e))

  abbrev SoundRefresh : Watcher → Round → (Watcher × Outcome) × W → Type 0
  SoundRefresh w r p = Sound w r p.0.0 p.0.1

  after_update-Sound :
      (w : Watcher) (r : Round) (l : List ServiceInstance) (f : Text)
      → text_eq f w.last_fingerprint ≡ false
      → too_soon w r.since ≡ false
      → (refused : Option Error × W)
      → SoundRefresh w r (after_update hash_instances on_update w r l f refused)
  unfolding after_update
  after_update-Sound w r l f changed soon (none, world) = (
    refl,
    (λ e. ground (arith, text_eq_iff f w.last_fingerprint, changed, e)),
    late_enough w r.since soon,
  )
  after_update-Sound w r l f changed soon (some e, world) = refl

  publish_changed-Sound :
      (w : Watcher) (r : Round) (world : W) (l : List ServiceInstance) (f : Text)
      → SoundRefresh w r (publish_changed hash_instances on_update w r world l f)
  unfolding publish_changed
  publish_changed-Sound w r world l f = elim (Bool-cases (text_eq f w.last_fingerprint)) [
    | inl e ↦ rw e refl
    | inr e ↦ elim (Bool-cases (too_soon w r.since)) [
      | inl k ↦ rw (e, k) refl
      | inr k ↦ rw (e, k) (after_update-Sound w r l f e k (on_update l world))
    ]
  ]

  after_hash-Sound :
      (w : Watcher) (r : Round) (world : W) (l : List ServiceInstance) (hash : Result Text)
      → SoundRefresh w r (after_hash hash_instances on_update w r world l hash)
  unfolding after_hash
  after_hash-Sound w r world l (ok f) = publish_changed-Sound w r world l f
  after_hash-Sound w r world l (err e) = refl

  after_discover-Sound :
      (w : Watcher) (r : Round) (world : W) (found : Result (List ServiceInstance))
      → SoundRefresh w r (after_discover hash_instances on_update w r world found)
  unfolding after_discover
  after_discover-Sound w r world (ok l) = after_hash-Sound w r world l (hash_instances l)
  after_discover-Sound w r world (err e) = refl

  refresh_once-Sound :
      (w : Watcher) (r : Round) (world : W)
      → SoundRefresh w r (refresh_once hash_instances on_update w r world)
  unfolding refresh_once
  refresh_once-Sound w r world = after_discover-Sound w r world r.found

  noted-Spaced :
      (w : Watcher) (r : Round) (next : Watcher) (outcome : Outcome) (ps : List Publication)
      → r.since ≤ r.now
      → Sound w r next outcome
      → Spaced next.debounce_interval next.last_fingerprint next.last_publish_at ps
      → Spaced w.debounce_interval w.last_fingerprint w.last_publish_at (noted next outcome ps)
  noted-Spaced w r next unchanged ps c s h =
      subst (λ v. Spaced v.debounce_interval v.last_fingerprint v.last_publish_at ps) s h
  noted-Spaced w r next debounced ps c s h =
      subst (λ v. Spaced v.debounce_interval v.last_fingerprint v.last_publish_at ps) s h
  noted-Spaced w r next (failed e) ps c s h =
      subst (λ v. Spaced v.debounce_interval v.last_fingerprint v.last_publish_at ps) s h
  noted-Spaced w r next (published l) ps c (e, changed, late) h =
      let time = ap (λ v. v.last_publish_at) e in
      let after =
        subst (λ v. Spaced v.debounce_interval v.last_fingerprint v.last_publish_at ps) e h in
      rw time
        (changed, (λ t q. NotBefore-later w.debounce_interval t r.since r.now (late t q) c), after)

  -- If, within each refresh, the clock does not go back between its two readings, then in any sequence of
  -- refreshes each publication has another fingerprint than the one before it and comes at least the debounce
  -- interval after it; the state that the sequence starts from counts as a publication.
  pub publications-Spaced :
      (w : Watcher) (world : W) (rounds : List Round)
      → All (λ r. r.since ≤ r.now) rounds
      → Spaced w.debounce_interval w.last_fingerprint w.last_publish_at
          (publications w world rounds)
  publications-Spaced w world [] h = tt
  publications-Spaced w world (r ∷ rounds) h =
      let ((next, outcome), after) = refresh_once hash_instances on_update w r world in
      noted-Spaced w r next outcome (publications next after rounds) h.0
        (refresh_once-Sound w r world) (publications-Spaced next after rounds h.1)
