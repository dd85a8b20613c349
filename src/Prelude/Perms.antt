-- ===== src/Prelude/Perms.antt =====
-- Predicates over rearranged lists.
use mathlib.Core.List.{Permᴰ, List}
use sidecar_agent.Prelude.Lists.{All}

pub All-perm {ℓ κ} :
    {A : Type ℓ} (P : A → Type κ) {xs ys : List A} → Permᴰ xs ys → All P xs → All P ys
All-perm P Permᴰ.nil h = tt
All-perm P (Permᴰ.cons e p) h = (rw (← e) h.0, All-perm P p h.1)
All-perm P (Permᴰ.swap e f) h = (rw (← f) h.1.0, (rw (← e) h.0, h.1.1))
All-perm P (Permᴰ.trans p q) h = All-perm P q (All-perm P p h)
