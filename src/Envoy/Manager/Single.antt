-- ===== src/Envoy/Manager/Single.antt =====
-- While only one `Start` has got past its first test, one process runs at most.
use sidecar_agent.Prelude.{ℕ, ◌≤◌, Bool, some, ◌≡◌, refl, sym, ◌∙◌, ap, arith}
use sidecar_agent.Envoy.Manager.{
  running, at_top, restarting, ended, reading, waiting, cleaning, checking, backing_off, Manager,
  CallStep, start_again, start_done, start_failed, stop_unstarted, stop_idle, stop_refused,
  stop_waits, stop_seen, stop_failed, stop_gave_up, LoopStep, read_state, no_context, no_process,
  read_channel, woken, clean_own, clean_other, stopped, crashed, stopped_in_backoff, backoff_over,
  restart_dropped, restart_stopped, restart_done, restart_failed, ProcessStep, parent_ends, exits,
  stores, closes, calls, watches, proceeds, Reach, new, later,
}
use sidecar_agent.Envoy.Manager.Invariant.{
  Inv, Inv-new, go_to-Inv, spawn-Inv, clean_own-Inv, cancel_now-Inv, start_done-Inv,
  start_failed-Inv, seen_dead,
}

CallStep-Inv :
    {m : Manager} {b : Bool} {n : Manager} → CallStep m b n → n.next_ctx ≤ 1 → Inv m → Inv n
CallStep-Inv (start_again c l e) few inv = inv
CallStep-Inv (start_done l e) few inv = start_done-Inv inv l few
CallStep-Inv (start_failed l e) few inv = start_failed-Inv inv l
CallStep-Inv (stop_unstarted l e) few inv = inv
CallStep-Inv (stop_idle c l e k) few inv = cancel_now-Inv inv c
CallStep-Inv (stop_refused c q l e k) few inv = cancel_now-Inv inv c
CallStep-Inv (stop_waits c q l e k) few inv = record {
  loops = inv.loops;
  watched = inv.watched;
  waits = λ d h. cc h;
  in_context = inv.in_context;
  paired = inv.paired;
}
CallStep-Inv (stop_seen d l e k) few inv = record {
  loops = inv.loops;
  watched = λ p alive. absurd (seen_dead inv d l e p alive);
  waits = λ d' h. cc h;
  in_context = λ h. refl;
  paired = refl;
}
CallStep-Inv (stop_failed d l e k) few inv = record {
  loops = inv.loops;
  watched = inv.watched;
  waits = λ d' h. cc h;
  in_context = inv.in_context;
  paired = inv.paired;
}
CallStep-Inv (stop_gave_up d l) few inv = record {
  loops = inv.loops;
  watched = inv.watched;
  waits = λ d' h. cc h;
  in_context = inv.in_context;
  paired = inv.paired;
}

LoopStep-Inv : {m : Manager} {i : ℕ} {n : Manager} → LoopStep m i n → m.next_ctx ≤ 1 → Inv m → Inv n
LoopStep-Inv {i = i} (read_state c q l e k j) few inv =
    go_to-Inv inv few i at_top e (λ x. cc x) (reading c q) (λ p a h w. tt)
LoopStep-Inv {i = i} (no_context l e k) few inv =
    go_to-Inv inv few i at_top e (λ x. cc x) ended (λ p a h w. ground (arith, inv.in_context k, h))
LoopStep-Inv {i = i} (no_process l e k) few inv =
    go_to-Inv inv few i at_top e (λ x. cc x) ended (λ p a h w. ground (arith, k, h))
LoopStep-Inv {m} {i} (read_channel c q e) few inv =
    go_to-Inv inv few i (reading c q) e (λ x. cc x) (waiting c q m.wait_done)
      (λ p a h w. inv.paired ∙ h)
LoopStep-Inv {m} {i} (woken c q d e k) few inv =
    go_to-Inv inv few i (waiting c q (some d)) e (λ x. cc x) (cleaning c q)
      (λ p a h w. let same : d ≡ p = cc w in ground (arith, ap m.phase same, k, a))
LoopStep-Inv {m} {i} (clean_own c q l e k) few inv =
    clean_own-Inv inv few i (cleaning c q) e (λ x. cc x) c (λ p w. w) l
LoopStep-Inv {i = i} (clean_other c q l e k) few inv =
    go_to-Inv inv few i (cleaning c q) e (λ x. cc x) (checking c) (λ p a h w. w)
LoopStep-Inv {i = i} (stopped c e k) few inv =
    go_to-Inv inv few i (checking c) e (λ x. cc x) ended (λ p a h w. w)
LoopStep-Inv {i = i} (crashed c e k) few inv =
    go_to-Inv inv few i (checking c) e (λ x. cc x) (backing_off c) (λ p a h w. w)
LoopStep-Inv {i = i} (stopped_in_backoff c e k) few inv =
    go_to-Inv inv few i (backing_off c) e (λ x. cc x) ended (λ p a h w. w)
LoopStep-Inv {i = i} (backoff_over c e) few inv =
    go_to-Inv inv few i (backing_off c) e (λ x. cc x) restarting (λ p a h w. w)
LoopStep-Inv {i = i} (restart_dropped l e k) few inv =
    go_to-Inv inv few i restarting e (λ x. cc x) ended (λ p a h w. w)
LoopStep-Inv {i = i} (restart_stopped c l e k j) few inv =
    go_to-Inv inv few i restarting e (λ x. cc x) ended (λ p a h w. w)
LoopStep-Inv {i = i} (restart_done c l e k j) few inv =
    spawn-Inv inv few i restarting e (λ x. cc x) c (λ p w. w) l k
LoopStep-Inv {i = i} (restart_failed c l e k j) few inv =
    go_to-Inv inv few i restarting e (λ x. cc x) at_top (λ p a h w. tt)

ProcessStep-Inv : {m n : Manager} → ProcessStep m n → Inv m → Inv n
ProcessStep-Inv (parent_ends c) inv = record {
  loops = inv.loops;
  watched = inv.watched;
  waits = inv.waits;
  in_context = inv.in_context;
  paired = inv.paired;
}
ProcessStep-Inv (exits q e) inv = record {
  loops = inv.loops;
  watched = λ p a. inv.watched p (ground (arith, a));
  waits = inv.waits;
  in_context = inv.in_context;
  paired = inv.paired;
}
ProcessStep-Inv (stores q b l e) inv = record {
  loops = inv.loops;
  watched = λ p a. inv.watched p (ground (arith, a));
  waits = inv.waits;
  in_context = inv.in_context;
  paired = inv.paired;
}
ProcessStep-Inv (closes q e) inv = record {
  loops = inv.loops;
  watched = λ p a. inv.watched p (ground (arith, a));
  waits = inv.waits;
  in_context = inv.in_context;
  paired = inv.paired;
}

-- The number of contexts never goes down.
CallStep-contexts :
    {m : Manager} {b : Bool} {n : Manager} → CallStep m b n → m.next_ctx ≤ n.next_ctx
CallStep-contexts (start_again c l e) = omega arith
CallStep-contexts (start_done l e) = omega arith
CallStep-contexts (start_failed l e) = omega arith
CallStep-contexts (stop_unstarted l e) = omega arith
CallStep-contexts (stop_idle c l e k) = omega arith
CallStep-contexts (stop_refused c q l e k) = omega arith
CallStep-contexts (stop_waits c q l e k) = omega arith
CallStep-contexts (stop_seen d l e k) = omega arith
CallStep-contexts (stop_failed d l e k) = omega arith
CallStep-contexts (stop_gave_up d l) = omega arith

LoopStep-contexts : {m : Manager} {i : ℕ} {n : Manager} → LoopStep m i n → n.next_ctx ≡ m.next_ctx
LoopStep-contexts (read_state c q l e k j) = refl
LoopStep-contexts (no_context l e k) = refl
LoopStep-contexts (no_process l e k) = refl
LoopStep-contexts (read_channel c q e) = refl
LoopStep-contexts (woken c q d e k) = refl
LoopStep-contexts (clean_own c q l e k) = refl
LoopStep-contexts (clean_other c q l e k) = refl
LoopStep-contexts (stopped c e k) = refl
LoopStep-contexts (crashed c e k) = refl
LoopStep-contexts (stopped_in_backoff c e k) = refl
LoopStep-contexts (backoff_over c e) = refl
LoopStep-contexts (restart_dropped l e k) = refl
LoopStep-contexts (restart_stopped c l e k j) = refl
LoopStep-contexts (restart_done c l e k j) = refl
LoopStep-contexts (restart_failed c l e k j) = refl

ProcessStep-contexts : {m n : Manager} → ProcessStep m n → n.next_ctx ≡ m.next_ctx
ProcessStep-contexts (parent_ends c) = refl
ProcessStep-contexts (exits q e) = refl
ProcessStep-contexts (stores q b l e) = refl
ProcessStep-contexts (closes q e) = refl

pub Reach-Inv : {m : Manager} → Reach m → m.next_ctx ≤ 1 → Inv m
Reach-Inv new few = Inv-new
Reach-Inv (later b r (calls s)) few =
    CallStep-Inv s few (Reach-Inv r (omega (arith, CallStep-contexts s, few)))
Reach-Inv (later {m} b r (watches i s)) few =
    let before : m.next_ctx ≤ 1 = omega (arith, LoopStep-contexts s, few) in
    LoopStep-Inv s before (Reach-Inv r before)
Reach-Inv (later b r (proceeds s)) few =
    ProcessStep-Inv s (Reach-Inv r (omega (arith, ProcessStep-contexts s, few)))

-- In every state that a new manager may come to by any interleaving, while at most one `Start` has made a
-- context, any two Envoy processes that run are the same, and it is the one that the manager keeps.
pub one_process :
    {m : Manager} (p q : ℕ)
    → Reach m
    → m.next_ctx ≤ 1
    → m.phase p ≡ running
    → m.phase q ≡ running
    → (p ≡ q) × (m.cmd ≡ some p)
one_process p q r few a b =
    let mine = (Reach-Inv r few).watched p a in
    let other = (Reach-Inv r few).watched q b in (cc (sym mine.0 ∙ other.0), mine.0)
