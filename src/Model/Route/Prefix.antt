-- ===== src/Model/Route/Prefix.antt =====
-- A method's prefix is its path through the last slash.
use sidecar_agent.Prelude.{
  ℕ, zero, suc, true, [], ◌∷◌, ◌++◌, take, Option, none, some, ◌≡◌, length, refl, arith, ap,
  append_assoc, Bool-cases, Option-cases, inl, inr, sym, ◌∙◌, ◌↔◌,
}
use sidecar_agent.Text.{
  Text, codes, trim_space, has_prefix, last_index, trim_left, trim_right, is_space,
}
use sidecar_agent.Text.Split.{Lacks}
use sidecar_agent.Text.Trim.{trim_right-snoc}
use sidecar_agent.Model.Strings.Canonical.{IsClean}
use sidecar_agent.Model.Route.{prefix_of, up_to_last_slash}

-- Where the last `b` of a text cuts it.
record Cut (b i : ℕ) (s : Text) : Type 0 where
  front : Text
  rest : Text
  whole : s ≡ front ++ b ∷ rest
  taken : take (suc i) s ≡ front ++ b ∷ []
  last : Lacks b rest
  place : length front ≡ i

last_index-none : (b : ℕ) (s : Text) → last_index b s ≡ none → Lacks b s
unfolding last_index
last_index-none b [] h = tt
last_index-none b (c ∷ s) h = elim (Option-cases (last_index b s)) [
  | inl e ↦ (ground (arith, e), last_index-none b s e)
  | inr (i, e) ↦ ground (arith, e)
]

last_index-Cut : (b i : ℕ) (s : Text) → last_index b s ≡ some i → Cut b i s
unfolding last_index
last_index-Cut b i [] h = cc
last_index-Cut b i (c ∷ s) h = elim (Option-cases (last_index b s)) [
  | inl e ↦ record {
    front = [];
    rest = s;
    whole = ground (arith, e);
    taken = ground (arith, e);
    last = last_index-none b s e;
    place = ground (arith, e);
  }
  | inr (j, e) ↦ deeper j e (last_index-Cut b j s e)
]
  where
    deeper : (j : ℕ) → last_index b s ≡ some j → Cut b j s → Cut b i (c ∷ s)
    deeper j e r =
        let q : i ≡ suc j = ground (arith, h, e) in
        record {
          front = c ∷ r.front;
          rest = r.rest;
          whole = ap (λ z. c ∷ z) r.whole;
          taken = rw q (ap (λ z. c ∷ z) r.taken);
          last = r.last;
          place = omega (arith, q, r.place);
        }

-- What a method's prefix is of the method: the path without its last segment.
pub record IsPrefixOf (p method : Text) : Type 0 where
  pub front : Text
  pub segment : Text
  pub ends_in_slash : p ≡ codes "/" ++ front ++ b'/' ∷ []
  pub path : trim_space method ≡ p ++ segment
  pub one_segment : Lacks b'/' segment

has_slash : (s : Text) → has_prefix s (codes "/") ≡ true → (rest : Text) × (s ≡ b'/' ∷ rest)
unfolding has_prefix
has_slash [] h = cc
has_slash (c ∷ s) h = (s, ground arith)

IsPrefixOf-of_Cut :
    (i : ℕ) (p method : Text)
    → has_prefix (trim_space method) (codes "/") ≡ true
    → p ≡ take (suc (suc i)) (trim_space method)
    → Cut b'/' (suc i) (trim_space method)
    → IsPrefixOf p method
IsPrefixOf-of_Cut i p method h e cut = go cut.front cut.place cut.whole cut.taken
  where
    go :
        (front : Text)
        → length front ≡ suc i
        → trim_space method ≡ front ++ b'/' ∷ cut.rest
        → take (suc (suc i)) (trim_space method) ≡ front ++ b'/' ∷ []
        → IsPrefixOf p method
    go [] n w t = absurd (omega (arith, n))
    go (c ∷ front) n w t =
        let slash : c ≡ b'/' = cc ((has_slash (trim_space method) h).1, w) in
        record {
          front = front;
          segment = cut.rest;
          ends_in_slash = cc (e, t, slash);
          path = e_path (e ∙ t) w;
          one_segment = cut.last;
        }
      where
        e_path :
            p ≡ (c ∷ front) ++ b'/' ∷ []
            → trim_space method ≡ (c ∷ front) ++ b'/' ∷ cut.rest
            → trim_space method ≡ p ++ cut.rest
        e_path q w' =
            w' ∙ sym (ap (λ z. z ++ cut.rest) q ∙ append_assoc (c ∷ front) (b'/' ∷ []) cut.rest)

prefix_of-IsPrefixOf : (method p : Text) → prefix_of method ≡ some p → IsPrefixOf p method
unfolding prefix_of
prefix_of-IsPrefixOf method p h = elim (Bool-cases (has_prefix (trim_space method) (codes "/"))) [
  | inl e ↦ split_index (last_index b'/' (trim_space method)) refl e
  | inr e ↦ ground (arith, e)
]
  where
    split_index :
        (o : Option ℕ)
        → last_index b'/' (trim_space method) ≡ o
        → has_prefix (trim_space method) (codes "/") ≡ true
        → IsPrefixOf p method
    split_index none q e = ground (arith, e, q)
    split_index (some zero) q e = ground (arith, e, q)
    split_index (some (suc i)) q e =
        IsPrefixOf-of_Cut i p method e (ground (arith, e, q, h)) (last_index-Cut b'/' (suc i) _ q)

last_index-append :
    (b : ℕ) (front rest : Text)
    → Lacks b rest
    → last_index b (front ++ b ∷ rest) ≡ some (length front)
unfolding last_index
last_index-append b [] rest h = rw (last_index_Lacks rest h) (ground arith)
  where
    last_index_Lacks : (s : Text) → Lacks b s → last_index b s ≡ none
    last_index_Lacks [] k = refl
    last_index_Lacks (c ∷ s) k = rw (last_index_Lacks s k.1, k.0) refl
last_index-append b (c ∷ front) rest h = rw (last_index-append b front rest h) refl

take-append :
    (front : Text) (b : ℕ) (rest : Text)
    → take (suc (length front)) (front ++ b ∷ rest) ≡ front ++ b ∷ []
take-append [] b rest = refl
take-append (c ∷ front) b rest = ap (λ z. c ∷ z) (take-append front b rest)

up_to_last_slash-append :
    (c : ℕ) (front rest : Text)
    → Lacks b'/' rest
    → up_to_last_slash ((c ∷ front) ++ b'/' ∷ rest) ≡ some ((c ∷ front) ++ b'/' ∷ [])
unfolding up_to_last_slash
up_to_last_slash-append c front rest h =
    rw (last_index-append b'/' (c ∷ front) rest h, up_to_last_slash)
      (ap some (take-append (c ∷ front) b'/' rest))

prefix_of_of_IsPrefixOf : (method p : Text) → IsPrefixOf p method → prefix_of method ≡ some p
unfolding prefix_of
prefix_of_of_IsPrefixOf method p h =
    let q : trim_space method ≡ (b'/' ∷ h.front) ++ b'/' ∷ h.segment =
      h.path
      ∙ ap (λ z. z ++ h.segment) h.ends_in_slash
      ∙ append_assoc (b'/' ∷ h.front) (b'/' ∷ []) h.segment in
    rw q (
      unfold has_prefix in
      up_to_last_slash-append b'/' h.front h.segment h.one_segment ∙ ap some (sym h.ends_in_slash))

-- A method has the prefix `p` exactly when `p` is its path through the last slash.
pub prefix_of_iff : (method p : Text) → (prefix_of method ≡ some p) ↔ IsPrefixOf p method
prefix_of_iff method p = (prefix_of-IsPrefixOf method p, prefix_of_of_IsPrefixOf method p)

-- A prefix begins and ends in a slash, so trimming leaves it alone.
pub IsPrefixOf-IsClean : (p method : Text) → IsPrefixOf p method → IsClean p
unfolding trim_space
IsPrefixOf-IsClean p method h = record {
  trimmed = rw h.ends_in_slash (slashes_stay h.front);
  filled = rw h.ends_in_slash refl;
}
  where
    slashes_stay :
        (front : Text)
        → trim_right is_space (trim_left is_space (b'/' ∷ (front ++ b'/' ∷ [])))
          ≡ b'/' ∷ (front ++ b'/' ∷ [])
    slashes_stay front = trim_right-snoc is_space (b'/' ∷ front) b'/' refl
