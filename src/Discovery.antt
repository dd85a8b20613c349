-- ===== src/Discovery.antt =====
-- discovery/watcher.go: `Watcher`, which publishes what it discovers when it has changed.
pub mod Spacing
use sidecar_agent.Prelude.{
  ℕ, suc, ◌+◌, Bool, true, false, Option, none, some, List, [], ◌∷◌, ltb, if◌then◌else◌, ◌≡◌, refl,
}
use sidecar_agent.Prelude.Int.{ℤ, pos, negsuc}
use sidecar_agent.Text.{Text, text_eq}
use sidecar_agent.Model.Error.{Error, Result, ok, err}
use sidecar_agent.Model.Service.{ServiceInstance}

-- Times are nanoseconds; `none` is the zero time.
pub record Watcher : Type 0 where
  pub debounce_interval : ℤ
  pub last_fingerprint : Text
  pub last_publish_at : Option ℕ

-- `New`
unfoldable pub new_watcher : ℤ → Watcher
new_watcher debounce_interval = record {
  debounce_interval = debounce_interval;
  last_fingerprint = [];
  last_publish_at = none;
}

-- What one refresh sees of the outside: `Discover`, then the clock at `time.Since` and at `time.Now`.
pub record Round : Type 0 where
  pub found : Result (List ServiceInstance)
  pub since : ℕ
  pub now : ℕ

pub data Outcome : Type 0 where
  unchanged debounced : Outcome
  published : List ServiceInstance → Outcome
  failed : Error → Outcome

-- `since - last < gap` on signed durations.
abbrev pub elapsed_below : ℕ → ℕ → ℤ → Bool
elapsed_below since last (pos gap) = ltb since (last + gap)
elapsed_below since last (negsuc gap) = ltb (since + suc gap) last

-- `time.Since(last) < debounce`, unless nothing was published yet.
unfoldable pub too_soon : Watcher → ℕ → Bool
too_soon w since = elim w.last_publish_at [
  | none ↦ false
  | some last ↦ elapsed_below since last w.debounce_interval
]

-- SHA-256 of the JSON, which may fail, and the callback that builds and publishes the snapshot, which
-- acts on the state of its own that it is given.
module _ {W : Type 0} (hash_instances : List ServiceInstance → Result Text)
    (on_update : List ServiceInstance → W → Option Error × W) where
  -- After the callback.
  unfoldable pub after_update :
      Watcher → Round → List ServiceInstance → Text → Option Error × W → (Watcher × Outcome) × W
  after_update w r instances fingerprint (some e, world) = ((w, failed e), world)
  after_update w r instances fingerprint (none, world) = (
    (
      record w { last_fingerprint = fingerprint; last_publish_at = some r.now },
      published instances,
    ),
    world,
  )

  -- From the lock on.
  unfoldable pub publish_changed :
      Watcher → Round → W → List ServiceInstance → Text → (Watcher × Outcome) × W
  publish_changed w r world instances fingerprint =
      if text_eq fingerprint w.last_fingerprint
      then ((w, unchanged), world)
      else if too_soon w r.since
      then ((w, debounced), world)
      else after_update w r instances fingerprint (on_update instances world)

  unfoldable pub after_hash :
      Watcher → Round → W → List ServiceInstance → Result Text → (Watcher × Outcome) × W
  after_hash w r world instances (err e) = ((w, failed e), world)
  after_hash w r world instances (ok fingerprint) = publish_changed w r world instances fingerprint

  unfoldable pub after_discover :
      Watcher → Round → W → Result (List ServiceInstance) → (Watcher × Outcome) × W
  after_discover w r world (err e) = ((w, failed e), world)
  after_discover w r world (ok instances) =
      after_hash w r world instances (hash_instances instances)

  -- `refreshOnce`, and so `RefreshNow`
  unfoldable pub refresh_once : Watcher → Round → W → (Watcher × Outcome) × W
  refresh_once w r world = after_discover w r world r.found

  -- `Run` on the rounds of its ticks: it ends with the first error, or when the context does.
  unfoldable pub run : Watcher → W → List Round → Watcher × Option Error × W
  run w world [] = (w, none, world)
  run w world (r ∷ rounds) =
      let ((next, outcome), after) = refresh_once w r world in
      let rest = run next after rounds in
      elim outcome [
        | failed e ↦ (next, some e, after)
        | unchanged ↦ rest
        | debounced ↦ rest
        | published instances ↦ rest
      ]
