-- ===== src/Model/Request/Valid.antt =====
-- Which requests are accepted.
use mathlib.Core.List.Permᴰ
use mathlib.Core.List.{Permᴰ}
use sidecar_agent.Prelude.{
  All-perm, ℕ, zero, suc, ◌≤◌, ◌<◌, Bool, true, false, none, List, [], ◌∷◌, ◌≡◌, ◌≢◌, refl, ◌↔◌,
  All, arith, if◌then◌else◌, ap, ◌∙◌,
}
use sidecar_agent.Prelude.Int.{ℤ, pos, negsuc, leb_int}
use sidecar_agent.Text.{Text, trim_space}
use sidecar_agent.Model.Error.{Result, ok, err}
use sidecar_agent.Model.Request.{
  RegisterRequest, DrainRequest, is_blank, is_path, port_is_bad, required_fields, check_required,
  check_methods, check_rest, validate_in_order, validate, grace_period, check_grace, validate_drain,
  default_grace,
}

abbrev pub IsFilled : Text × Text → Type 0
IsFilled f = is_blank f.1 ≡ false

-- A TCP port.
pub record IsPort (p : ℤ) : Type 0 where
  pub number : ℕ
  pub is_number : p ≡ pos number
  pub positive : 0 < number
  pub small : number ≤ 65535

pub record IsValid (r : RegisterRequest) : Type 0 where
  pub filled : All IsFilled (required_fields r)
  pub port : IsPort r.port
  pub weight : (n : ℕ) × (r.weight ≡ pos (suc n))
  pub some_method : r.methods ≢ []
  pub paths : All (λ m. is_path m ≡ true) r.methods

IsFilled-of_none :
    (fields : List (Text × Text)) → check_required fields ≡ none → All IsFilled fields
unfolding check_required
IsFilled-of_none [] h = tt
IsFilled-of_none ((field, value) ∷ rest) h = (ground arith, IsFilled-of_none rest (ground arith))

none_of_filled : (fields : List (Text × Text)) → All IsFilled fields → check_required fields ≡ none
unfolding check_required
none_of_filled [] h = refl
none_of_filled ((field, value) ∷ rest) h = ground (arith, none_of_filled rest h.1)

paths_of_none : (ms : List Text) → check_methods ms ≡ none → All (λ m. is_path m ≡ true) ms
unfolding check_methods
paths_of_none [] h = tt
paths_of_none (m ∷ ms) h = (ground arith, paths_of_none ms (ground arith))

none_of_paths : (ms : List Text) → All (λ m. is_path m ≡ true) ms → check_methods ms ≡ none
unfolding check_methods
none_of_paths [] h = refl
none_of_paths (m ∷ ms) h = ground (arith, none_of_paths ms h.1)

pub IsPort-of_test : (p : ℤ) → port_is_bad p ≡ false → IsPort p
IsPort-of_test (pos n) h = record {
  number = n;
  is_number = refl;
  positive = ground arith;
  small = ground arith;
}
IsPort-of_test (negsuc n) h = cc

pub test_of_IsPort : (p : ℤ) → IsPort p → port_is_bad p ≡ false
test_of_IsPort p h = rw h.is_number (good h.number h.positive h.small)
  where
    good : (n : ℕ) → 0 < n → n ≤ 65535 → port_is_bad (pos n) ≡ false
    good n a b = ground arith

weight_of_test : (w : ℤ) → leb_int w (pos 0) ≡ false → (n : ℕ) × (w ≡ pos (suc n))
weight_of_test (pos zero) h = absurd (ground (arith, h))
weight_of_test (pos (suc n)) h = (n, refl)
weight_of_test (negsuc n) h = cc

IsValid_of_rest :
    (port weight : ℤ) (methods : List Text)
    → check_rest port weight methods ≡ none
    → IsPort port
      × ((n : ℕ) × (weight ≡ pos (suc n)))
      × (methods ≢ [])
      × All (λ m. is_path m ≡ true) methods
unfolding check_rest
IsValid_of_rest port weight [] h = absurd (ground (arith, h))
IsValid_of_rest port weight (m ∷ ms) h = (
  IsPort-of_test port (ground arith),
  weight_of_test weight (ground arith),
  (λ e. cc),
  paths_of_none (m ∷ ms) (ground arith),
)

rest_of_IsValid :
    (port weight : ℤ) (methods : List Text)
    → IsPort port
    → ((n : ℕ) × (weight ≡ pos (suc n)))
    → methods ≢ []
    → All (λ m. is_path m ≡ true) methods
    → check_rest port weight methods ≡ none
unfolding check_rest
rest_of_IsValid port weight [] p w s h = absurd (s refl)
rest_of_IsValid port weight (m ∷ ms) p w s h =
    rw (test_of_IsPort port p, w.1) (ground (arith, none_of_paths (m ∷ ms) h))

module _ (r : RegisterRequest) (fields : List (Text × Text))
    (order : Permᴰ (required_fields r) fields) where
  accepted : validate_in_order fields r ≡ none → IsValid r
  unfolding validate_in_order
  accepted h =
      let a : check_required fields ≡ none = ground arith in
      let (port, weight, methods, paths) =
        IsValid_of_rest r.port r.weight r.methods (ground (arith, a)) in
      record {
        filled = All-perm IsFilled (Permᴰ.symm order) (IsFilled-of_none fields a);
        port = port;
        weight = weight;
        some_method = methods;
        paths = paths;
      }

  accepts : IsValid r → validate_in_order fields r ≡ none
  unfolding validate_in_order
  accepts v =
      rw (none_of_filled fields (All-perm IsFilled order v.filled), validate_in_order)
        (rest_of_IsValid r.port r.weight r.methods v.port v.weight v.some_method v.paths)

  pub validate_in_order_iff : (validate_in_order fields r ≡ none) ↔ IsValid r
  validate_in_order_iff = (accepted, accepts)

pub validate-IsValid : (r : RegisterRequest) → validate r ≡ none → IsValid r
unfolding validate
validate-IsValid r h =
    (validate_in_order_iff r (required_fields r) (Permᴰ.refl (required_fields r))).0 h

-- An accepted drain request names a port and has a positive grace period.
pub record IsDrainable (parse_duration : Text → Result ℤ) (r : DrainRequest) : Type 0 where
  pub named : is_blank r.name ≡ false
  pub port : IsPort r.port
  pub grace : (n : ℕ) × (grace_period parse_duration r ≡ ok (pos (suc n)))

module _ (parse_duration : Text → Result ℤ) (r : DrainRequest) where
  grace_of_ok : (g : ℤ) → grace_period parse_duration r ≡ ok g → (n : ℕ) × (g ≡ pos (suc n))
  unfolding grace_period
  grace_of_ok g h = weight_of_test g (positive_grace (is_blank r.grace_period_raw) h)
    where
      positive_of_check :
          (d : Result ℤ) → check_grace parse_duration d ≡ ok g → leb_int g (pos 0) ≡ false
      positive_of_check (err e) q = cc
      positive_of_check (ok value) q = ground arith

      positive_grace :
          (b : Bool)
          → (if b
              then ok default_grace
              else check_grace parse_duration (parse_duration (trim_space r.grace_period_raw)))
            ≡ ok g
          → leb_int g (pos 0) ≡ false
      positive_grace true q = ground arith
      positive_grace false q = positive_of_check (parse_duration (trim_space r.grace_period_raw)) q

  -- An accepted drain request has a name that is more than blanks, a TCP port and a positive grace period.
  pub validate_drain-IsDrainable :
      validate_drain parse_duration r ≡ none → IsDrainable parse_duration r
  unfolding validate_drain
  validate_drain-IsDrainable h = go (grace_period parse_duration r) refl
    where
      go : (g : Result ℤ) → grace_period parse_duration r ≡ g → IsDrainable parse_duration r
      go (err e) q = absurd (ground (arith, h, q))
      go (ok g) q =
          let (n, e) = grace_of_ok g q in
          record {
            named = ground arith;
            port = IsPort-of_test r.port (ground arith);
            grace = (n, q ∙ ap ok e);
          }
