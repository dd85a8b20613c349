-- ===== src/Dns.antt =====
-- dns/server.go: the local DNS server. Messages are those of miekg/dns, less what the source does not
-- touch.
pub mod Answers
use sidecar_agent.Prelude.{
  ℕ, ◌==◌, Bool, true, false, not, Option, none, some, List, [], ◌∷◌, ◌++◌, if◌then◌else◌, ◌≡◌,
  refl,
}
use sidecar_agent.Text.{Text, codes, trim_space}
use sidecar_agent.Model.Error.{Error, Result, ok, err}

pub record Question : Type 0 where
  pub name : Text
  pub qtype : ℕ

-- `miekgdns.A` with its header.
pub record Answer : Type 0 where
  pub name : Text
  pub rrtype : ℕ
  pub class : ℕ
  pub ttl : ℕ
  pub a : Text

pub record Msg : Type 0 where
  pub id : ℕ
  pub question : List Question
  pub authoritative : Bool
  pub answer : List Answer

-- `TypeA` and `ClassINET`
abbrev pub type_a : ℕ
type_a = 1

abbrev pub class_inet : ℕ
class_inet = 1

abbrev pub mesh_suffix : Text
mesh_suffix = codes "svc.cluster.local."

-- A listener is made by `Start`.
pub record Server : Type 0 where
  pub upstream_dns : Text
  pub udp_server : Bool
  pub tcp_server : Bool

-- `New`
unfoldable pub new_server : Text → Server
new_server upstream = record {
  upstream_dns = trim_space upstream;
  udp_server = false;
  tcp_server = false;
}

abbrev pub loopback_answer : Question → Answer
loopback_answer q = record {
  name = q.name;
  rrtype = type_a;
  class = class_inet;
  ttl = 0;
  a = codes "127.0.0.1";
}

-- The loop over the questions.
unfoldable pub answer_questions : List Question → Msg → Msg
answer_questions [] resp = resp
answer_questions (q ∷ questions) resp = answer_questions questions (
    if not (q.qtype == type_a)
    then resp
    else record resp { answer = resp.answer ++ loopback_answer q ∷ [] })

-- What a handler sends back: a message, or what `HandleFailed` sends.
pub data Sent : Type 0 where
  message : Msg → Sent
  handle_failed : Msg → Sent

-- Of miekg/dns: `SetReply` on a new message, `Client.Exchange`, and whether the multiplexer takes a
-- name to lie in a zone.
pub record Library : Type 0 where
  pub set_reply : Msg → Msg
  pub exchange : Msg → Text → Result Msg
  pub in_zone : Text → Msg → Bool

module _ (l : Library) where
  -- `handleMeshDomain`
  unfoldable pub handle_mesh_domain : Msg → Sent
  handle_mesh_domain r =
      message (answer_questions r.question (record (l.set_reply r) { authoritative = true }))

  -- `forward`
  unfoldable pub forward : Server → Msg → Sent
  forward s r = elim (l.exchange r s.upstream_dns) [
    | err e ↦ handle_failed r
    | ok resp ↦ message resp
  ]

  -- `handler`: the multiplexer prefers the longer of two zones, and `.` has all names.
  unfoldable pub handler : Server → Msg → Sent
  handler s r = if l.in_zone mesh_suffix r then handle_mesh_domain r else forward s r

-- How a listener ends, if it does.
pub data Serving : Type 0 where
  listening : Serving
  ended : Option Error → Serving

-- `Start`, once it has set up both listeners, for how far they are: `none` while it does not return.
-- The UDP listener's end is read after the TCP listener's.
unfoldable pub start : Serving → Serving → Option (Option Error)
start udp listening = none
start udp (ended (some e)) = some (some e)
start listening (ended none) = none
start (ended e) (ended none) = some e

-- `Shutdown`, for what `ShutdownContext` of the two listeners returns: whether each was shut down,
-- and the error.
unfoldable pub shutdown : Server → Option Error → Option Error → (Bool × Bool) × Option Error
shutdown s udp tcp =
    let rest : Option Error = if s.tcp_server then tcp else none in
    if s.udp_server
    then elim udp [ some e ↦ ((true, false), some e) | none ↦ ((true, s.tcp_server), rest) ]
    else ((false, s.tcp_server), rest)
