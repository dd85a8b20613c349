-- ===== src/Xds/Snapshot/Priority.antt =====
-- `buildLoadAssignment`: localities of the agent's own cluster come first.
use sidecar_agent.Prelude.{
  ℕ, zero, suc, ◌≤◌, some, List, [], ◌∷◌, ◌++◌, All, All-mono, ◌≡◌, arith, false, Bool-cases, inl,
  inr,
}
use sidecar_agent.Sort.Sorted.{Sorted, Below, sort_by-Sorted}
use sidecar_agent.Text.{Text, text_eq, text_lt, trim_space, decimal}
use sidecar_agent.Text.Order.{text_order}
use sidecar_agent.Model.Service.{ServiceInstance}
use sidecar_agent.Xds.Snapshot.{Builder, LocalityLbEndpoints, priority_of, build_load_assignment}
use sidecar_agent.Xds.Snapshot.Endpoints.{
  locality_of, at_locality, key_of_locality, build_load_assignment_lem,
}

abbrev sort_key : LocalityLbEndpoints → Text
sort_key l = decimal l.priority ++ b'|' ∷ l.zone

-- No locality comes after one with a greater priority number.
abbrev pub Ordered : List LocalityLbEndpoints → Type 0
Ordered [] = Unit
Ordered (g ∷ gs) = All (λ h. g.priority ≤ h.priority) gs × Ordered gs

lower_first :
    (p q : ℕ) (x y : Text)
    → p ≤ 1
    → q ≤ 1
    → text_lt (decimal q ++ b'|' ∷ y) (decimal p ++ b'|' ∷ x) ≡ false
    → p ≤ q
unfolding text_lt decimal
lower_first zero q x y hp hq h = omega arith
lower_first (suc zero) zero x y hp hq h = cc
lower_first (suc zero) (suc q) x y hp hq h = omega arith
lower_first (suc (suc p)) q x y hp hq h = absurd (omega (arith, hp))

Ordered-of_Sorted :
    (gs : List LocalityLbEndpoints)
    → Sorted text_order sort_key gs
    → All (λ g. g.priority ≤ 1) gs
    → Ordered gs
Ordered-of_Sorted [] s low = tt
Ordered-of_Sorted (g ∷ gs) s low = (after gs s.0 low.1, Ordered-of_Sorted gs s.1 low.1)
  where
    after :
        (hs : List LocalityLbEndpoints)
        → Below text_order sort_key (sort_key g) hs
        → All (λ h. h.priority ≤ 1) hs
        → All (λ h. g.priority ≤ h.priority) hs
    after [] b l = tt
    after (h ∷ hs) b l =
        (lower_first g.priority h.priority g.zone h.zone low.0 l.0 b.0, after hs b.1 l.1)

module _ (b : Builder) where
  priority_small : (i : ServiceInstance) → priority_of b i ≤ 1
  priority_small i =
      elim (Bool-cases (text_eq (trim_space i.cluster) (trim_space b.settings.local_cluster))) [
        | inl e ↦ rw e (omega arith)
        | inr e ↦ rw e (omega arith)
      ]

  locality_of_small :
      (l : List ServiceInstance) (g : LocalityLbEndpoints)
      → locality_of b l ≡ some g
      → g.priority ≤ 1
  locality_of_small [] g h = cc
  locality_of_small (i ∷ l) g h =
      let e : priority_of b i ≡ g.priority = cc h in rw (← e) (priority_small i)

  -- In a load assignment no locality comes after one with a greater priority number.
  pub build_load_assignment-Ordered :
      (name : Text) (l : List ServiceInstance)
      → Ordered (build_load_assignment b name l).0.endpoints
  unfolding build_load_assignment
  build_load_assignment-Ordered name l =
      let localities = (build_load_assignment b name l).0.endpoints in
      Ordered-of_Sorted localities (sort_by-Sorted text_order sort_key _) (
        All-mono (λ g. locality_of b (at_locality b (key_of_locality b g) l) ≡ some g)
          (λ g. g.priority ≤ 1)
          (λ g h. locality_of_small (at_locality b (key_of_locality b g) l) g h) localities
          (build_load_assignment_lem b name l).0)
