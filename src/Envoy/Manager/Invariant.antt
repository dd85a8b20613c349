-- ===== src/Envoy/Manager/Invariant.antt =====
-- An invariant of a manager while only one `Start` has got past its first test: a process that runs is
-- the manager's, and the loop watches it.
use mathlib.Core.Path.{subst}
use sidecar_agent.Prelude.{
  ℕ, suc, ◌<◌, ◌≤◌, true, false, Option, none, some, ◌⊎◌, inl, inr, ◌≡◌, ◌≢◌, refl, sym, ◌∙◌, ap,
  arith, ◌==◌, ==_iff, Bool-cases,
}
use sidecar_agent.Envoy.Manager.{
  running, closed, Loop, no_loop, at_top, restarting, ended, reading, waiting, cleaning, checking,
  backing_off, Manager, new_manager, update, spawn, with_context, cancel_now, go_to,
}

-- The loop is about to wait for this process, or waits for its channel.
abbrev pub Watches : ℕ → Loop → Type 0
Watches p at_top = Unit
Watches p (reading c q) = Unit
Watches p (waiting c q d) = d ≡ some p
Watches p no_loop = ⊥
Watches p restarting = ⊥
Watches p ended = ⊥
Watches p (cleaning c q) = ⊥
Watches p (checking c) = ⊥
Watches p (backing_off c) = ⊥

pub record Inv (m : Manager) : Type 0 where
  pub loops : (i : ℕ) → (m.loop i ≡ no_loop) ⊎ (i < m.next_ctx)
  pub watched : (p : ℕ) → m.phase p ≡ running → (m.cmd ≡ some p) × Watches p (m.loop 0)
  pub waits : (d : Option ℕ) → m.lock ≡ some d → d ≡ m.wait_done
  pub in_context : m.ctx ≡ none → m.cmd ≡ none
  pub paired : m.wait_done ≡ m.cmd

pub Inv-new : Inv new_manager
Inv-new = record {
  loops = λ i. inl refl;
  watched = λ p e. cc;
  waits = λ d e. cc;
  in_context = λ e. refl;
  paired = refl;
}

-- A process runs only under a loop.
pub none_running :
    {m : Manager}
    → Inv m
    → (l : Loop) → m.loop 0 ≡ l
    → ((p : ℕ) → Watches p l → ⊥)
    → (p : ℕ) → m.phase p ≡ running
    → ⊥
none_running inv l e unwatched p alive = unwatched p (subst (Watches p) e (inv.watched p alive).1)

-- The loop is the first one, while there is one context at most.
is_first :
    {m : Manager} (i : ℕ) (l : Loop) → Inv m → m.next_ctx ≤ 1 → m.loop i ≡ l → l ≢ no_loop → i ≡ 0
is_first {m} i l inv few e some_loop = elim (inv.loops i) [
  | inl q ↦ absurd (some_loop (sym e ∙ q))
  | inr q ↦ omega (arith, q, few)
]

module _ {m : Manager} (inv : Inv m) (few : m.next_ctx ≤ 1) (i : ℕ) (l : Loop) (e : m.loop i ≡ l)
    (started : l ≢ no_loop) where
  first : i ≡ 0
  first = is_first i l inv few e started

  loops-go_to : (l' : Loop) (j : ℕ) → (update m.loop i l' j ≡ no_loop) ⊎ (j < m.next_ctx)
  loops-go_to l' j = elim (Bool-cases (i == j)) [
    | inl q ↦ inr (omega (arith, below, (==_iff i j).0 q))
    | inr q ↦ rw q (inv.loops j)
  ]
    where
      below : i < m.next_ctx
      below = elim (inv.loops i) [ inl k ↦ absurd (started (sym e ∙ k)) | inr k ↦ k ]

  -- The loop goes on, and still watches every process that runs.
  pub go_to-Inv :
      (l' : Loop)
      → ((p : ℕ) → m.phase p ≡ running → m.cmd ≡ some p → Watches p l → Watches p l')
      → Inv (go_to i l' m)
  go_to-Inv l' keeps = record {
    loops = loops-go_to l';
    watched = λ p alive. still p alive (inv.watched p alive);
    waits = inv.waits;
    in_context = inv.in_context;
    paired = inv.paired;
  }
    where
      still :
          (p : ℕ)
          → m.phase p ≡ running
          → (m.cmd ≡ some p) × Watches p (m.loop 0)
          → (m.cmd ≡ some p) × Watches p (update m.loop i l' 0)
      still p alive (own, w) =
          let at : (i == 0) ≡ true = (==_iff i 0).1 first in
          (own, rw at (keeps p alive own (subst (Watches p) (sym (ap m.loop first) ∙ e) w)))

  -- The same where nothing runs.
  unwatched : ((p : ℕ) → Watches p l → ⊥) → (p : ℕ) → m.phase p ≡ running → ⊥
  unwatched nobody p alive =
      nobody p (subst (Watches p) (sym (ap m.loop first) ∙ e) (inv.watched p alive).1)

  -- A process started by the loop is watched by it.
  pub spawn-Inv :
      (c : ℕ)
      → ((p : ℕ) → Watches p l → ⊥)
      → m.lock ≡ none
      → m.ctx ≡ some c
      → Inv (go_to i at_top (spawn m))
  spawn-Inv c nobody free within = record {
    loops = loops-go_to at_top;
    watched = λ p alive. (only p (Bool-cases (m.next_process == p)) alive, at_zero p);
    waits = λ d k. cc (free, k);
    in_context = λ k. cc (within, k);
    paired = refl;
  }
    where
      only :
          (p : ℕ)
          → ((m.next_process == p) ≡ true) ⊎ ((m.next_process == p) ≡ false)
          → update m.phase m.next_process running p ≡ running
          → some m.next_process ≡ some p
      only p (inl q) alive = ap some ((==_iff m.next_process p).0 q)
      only p (inr q) alive = absurd (unwatched nobody p (ground (arith, q, alive)))

      at_zero : (p : ℕ) → Watches p (update m.loop i at_top 0)
      at_zero p = rw ((==_iff i 0).1 first) tt

  -- The loop forgets its process, where none runs.
  pub clean_own-Inv :
      (c : ℕ)
      → ((p : ℕ) → Watches p l → ⊥)
      → m.lock ≡ none
      → Inv (go_to i (checking c) (record m { cmd = none; wait_done = none; wait_ok = true }))
  clean_own-Inv c nobody free = record {
    loops = loops-go_to (checking c);
    watched = λ p alive. absurd (unwatched nobody p alive);
    waits = λ d k. cc (free, k);
    in_context = λ k. refl;
    paired = refl;
  }

module _ {m : Manager} (inv : Inv m) where
  -- Only the fields that the invariant does not read change, but for cancelled contexts.
  pub cancel_now-Inv : (c : ℕ) → Inv (cancel_now c m)
  cancel_now-Inv c = record {
    loops = inv.loops;
    watched = inv.watched;
    waits = inv.waits;
    in_context = inv.in_context;
    paired = inv.paired;
  }

  pub start_done-Inv :
      m.lock ≡ none → suc m.next_ctx ≤ 1 → Inv (go_to m.next_ctx at_top (spawn (with_context m)))
  start_done-Inv free few = record {
    loops = λ j. started j (Bool-cases (m.next_ctx == j)) (inv.loops j);
    watched = λ p alive. (only p (Bool-cases (m.next_process == p)) alive, at_zero p);
    waits = λ d h. cc (free, h);
    in_context = λ h. cc h;
    paired = refl;
  }
    where
      zeroth : m.next_ctx ≡ 0
      zeroth = omega (arith, few)

      started :
          (j : ℕ)
          → ((m.next_ctx == j) ≡ true) ⊎ ((m.next_ctx == j) ≡ false)
          → (m.loop j ≡ no_loop) ⊎ (j < m.next_ctx)
          → (update m.loop m.next_ctx at_top j ≡ no_loop) ⊎ (j < suc m.next_ctx)
      started j (inl q) k = inr (omega (arith, (==_iff m.next_ctx j).0 q))
      started j (inr q) (inl k) = inl (rw q k)
      started j (inr q) (inr k) = inr (omega (arith, k))

      no_loop_yet : m.loop 0 ≡ no_loop
      no_loop_yet = elim (inv.loops 0) [ inl k ↦ k | inr k ↦ absurd (omega (arith, k, zeroth)) ]

      only :
          (p : ℕ)
          → ((m.next_process == p) ≡ true) ⊎ ((m.next_process == p) ≡ false)
          → update m.phase m.next_process running p ≡ running
          → some m.next_process ≡ some p
      only p (inl q) alive = ap some ((==_iff m.next_process p).0 q)
      only p (inr q) alive =
          absurd (none_running inv no_loop no_loop_yet (λ p w. w) p (ground (arith, q, alive)))

      at_zero : (p : ℕ) → Watches p (update m.loop m.next_ctx at_top 0)
      at_zero p = rw ((==_iff m.next_ctx 0).1 zeroth) tt

  pub start_failed-Inv : m.lock ≡ none → Inv (cancel_now m.next_ctx (with_context m))
  start_failed-Inv free = record {
    loops = λ j. elim (inv.loops j) [ inl k ↦ inl k | inr k ↦ inr (omega (arith, k)) ];
    watched = inv.watched;
    waits = λ d h. cc (free, h);
    in_context = λ h. cc h;
    paired = inv.paired;
  }

  -- A process whose channel a waiting `Stop` has seen closed does not run, so none does.
  pub seen_dead :
      (d : ℕ) → m.lock ≡ some (some d) → m.phase d ≡ closed → (p : ℕ) → m.phase p ≡ running → ⊥
  seen_dead d l e p alive =
      let q : some d ≡ some p = inv.waits (some d) l ∙ inv.paired ∙ (inv.watched p alive).0 in
      let same : d ≡ p = cc q in ground (arith, ap m.phase same, e, alive)
