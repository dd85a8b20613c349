-- ===== src/Dns/Answers.antt =====
-- What the server answers to questions for the mesh.
use sidecar_agent.Prelude.{
  ◌==◌, true, List, [], ◌∷◌, ◌++◌, append-nil, append_assoc, map, if◌then◌else◌, ◌≡◌, refl, ◌∙◌,
  Bool-cases, inl, inr,
}
use sidecar_agent.Text.{codes}
use sidecar_agent.Dns.{
  Question, Msg, Answer, type_a, mesh_suffix, Server, loopback_answer, answer_questions, message,
  Library, handle_mesh_domain, handler,
}

-- An A record of class IN for the question's name: 127.0.0.1, not to be kept.
abbrev pub loopback_record : Question → Answer
loopback_record q = record { name = q.name; rrtype = 1; class = 1; ttl = 0; a = codes "127.0.0.1" }

-- The questions for an IPv4 address, which have type 1.
unfoldable pub address_questions : List Question → List Question
address_questions [] = []
address_questions (q ∷ questions) =
    let rest = address_questions questions in if q.qtype == 1 then q ∷ rest else rest

answered :
    (questions : List Question) (resp : Msg)
    → answer_questions questions resp
      ≡ record resp { answer = resp.answer ++ map loopback_answer (address_questions questions) }
unfolding answer_questions address_questions
answered [] resp = rw (append-nil resp.answer) refl
answered (q ∷ questions) resp = elim (Bool-cases (q.qtype == type_a)) [
  | inl yes_a ↦
      let next =
        answered questions (record resp { answer = resp.answer ++ loopback_answer q ∷ [] }) in
      let more =
        append_assoc resp.answer (loopback_answer q ∷ [])
          (map loopback_answer (address_questions questions)) in
      rw yes_a (next ∙ rw more refl)
  | inr no_a ↦ rw no_a (answered questions resp)
]

-- A name in the mesh never goes upstream: the answer is authoritative, has the request's number, and
-- consists of one A record for 127.0.0.1 with TTL 0 for each question of type A, by the question's name
-- and in the order of the questions, and none for a question of another type. Assumed is what
-- miekg/dns documents of a reply: the request's number and no answers.
pub handler_mesh :
    (l : Library) (s : Server) (r : Msg)
    → ((m : Msg) → (l.set_reply m).id ≡ m.id)
    → ((m : Msg) → (l.set_reply m).answer ≡ [])
    → l.in_zone mesh_suffix r ≡ true
    → (reply : Msg) × (handler l s r ≡ message reply)
      × (reply.authoritative ≡ true)
      × (reply.id ≡ r.id)
      × (reply.answer ≡ map loopback_record (address_questions r.question))
unfolding handler handle_mesh_domain
handler_mesh l s r number unanswered mesh =
    let reply = record (l.set_reply r) { authoritative = true } in
    let all = answered r.question reply in
    (
      record reply {
        answer = (l.set_reply r).answer ++ map loopback_answer (address_questions r.question);
      },
      rw (mesh, all) refl,
      refl,
      number r,
      rw (unanswered r) refl,
    )
