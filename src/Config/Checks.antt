-- ===== src/Config/Checks.antt =====
-- core/config.py: which configurations are built without an error.
use generalised_elgamal_voti.Shared.{
  ℕ, suc, ◌+◌, ◌*◌, ◌≤◌, ◌<◌, ◌≡◌, ◌↔◌, inl, inr, refl, sym, ◌∙◌, ap, arith, true, false, ◌||◌,
  List, [], ◌∷◌, map, length, Elem, Distinct, Bool-cases, ok,
}
use generalised_elgamal_voti.Shared.Bytes.{Bytes}
use generalised_elgamal_voti.Shared.Keys.{same_list, same_list_iff, number_key}
use generalised_elgamal_voti.Config.{
  new_threshold, KeyperIdentity, ElectionConfig, contains, to_set, is_negative, check_ballot_bounds,
  post_init,
}

-- A threshold is built exactly when t is between 1 and n and more than half of n.
pub new_threshold_iff :
    (t n : ℕ)
    → (new_threshold t n ≡ ok (record { t = t; n = n })) ↔ ((1 ≤ t) × (t ≤ n) × (n < t * 2))
unfolding new_threshold
new_threshold_iff t n = ground arith

contains→Elem : (x : Bytes) (xs : List Bytes) → contains x xs ≡ true → Elem x xs
unfolding contains
contains→Elem x [] h = cc
contains→Elem x (y ∷ ys) h = elim (Bool-cases (same_list x y)) [
  | inl same ↦ inl ((same_list_iff x y).0 same)
  | inr other ↦ inr (contains→Elem x ys (sym (ap (λ b. b || contains x ys) other) ∙ h))
]

Elem→contains : (x : Bytes) (xs : List Bytes) → Elem x xs → contains x xs ≡ true
unfolding contains
Elem→contains x [] m = absurd m
Elem→contains x (y ∷ ys) (inl e) = rw ((same_list_iff x y).1 e) refl
Elem→contains x (y ∷ ys) (inr m) = elim (Bool-cases (same_list x y)) [
  | inl same ↦ rw same refl
  | inr other ↦ rw (other, Elem→contains x ys m) refl
]

length-to_set : (xs : List Bytes) → length (to_set xs) ≤ length xs
unfolding to_set
length-to_set [] = omega arith
length-to_set (x ∷ xs) = ground (arith, length-to_set xs)

pub to_set_iff : (xs : List Bytes) → (length (to_set xs) ≡ length xs) ↔ Distinct xs
unfolding to_set
to_set_iff [] = (λ h. tt, λ h. refl)
to_set_iff (x ∷ xs) = elim (Bool-cases (contains x xs)) [
  | inl twice ↦
      let same_length : length (to_set (x ∷ xs)) ≡ length (to_set xs) = rw twice in
      (
        λ h. absurd (omega (arith, length-to_set xs, same_length, h)),
        λ (fresh, _). absurd (fresh (contains→Elem x xs twice)),
      )
  | inr once ↦
      let one_more : length (to_set (x ∷ xs)) ≡ suc (length (to_set xs)) = rw once in
      (
        λ h. (λ m. cc (Elem→contains x xs m, once), (to_set_iff xs).0 (omega (arith, one_more, h))),
        λ (_, rest). one_more ∙ ap suc ((to_set_iff xs).1 rest),
      )
]

pub signing_keys : ElectionConfig → List Bytes
signing_keys c = map (λ (k : KeyperIdentity). k.signing_key) c.keypers

-- What a configuration satisfies.
pub record IsValid (c : ElectionConfig) : Type 0 where
  pub candidates : (1 ≤ c.num_candidates) × (c.num_candidates ≤ 65535)
  pub budgets : (1 ≤ c.budget) × (c.budget ≤ 65534)
  pub branches : c.num_candidates * (c.budget + 1) ≤ 2500
  pub fee : is_negative c.self_submit_fee_wei ≡ false
  pub scaling : 1 ≤ c.scale
  pub window : c.voting_start < c.voting_end
  pub committee : length c.keypers ≡ c.threshold.n
  pub members : Distinct (signing_keys c)

post_init-facts :
    (c : ElectionConfig)
    → (post_init c ≡ ok tt) ↔ (
        ((1 ≤ c.num_candidates) × (c.num_candidates ≤ 65535))
        × ((1 ≤ c.budget) × (c.budget ≤ 65534))
        × (c.num_candidates * (c.budget + 1) ≤ 2500)
        × (is_negative c.self_submit_fee_wei ≡ false)
        × (1 ≤ c.scale)
        × (c.voting_start < c.voting_end)
        × (length c.keypers ≡ c.threshold.n)
        × (length (to_set (signing_keys c)) ≡ length (signing_keys c)))
unfolding post_init check_ballot_bounds signing_keys
post_init-facts c = ground arith

-- A configuration passes its checks exactly when there are 1 to 65535 candidates, a budget of 1 to
-- 65534, at most 2500 proof branches per ballot, a fee that is not negative, a scale of at least 1, a
-- voting end after its start, and a committee of the announced size with distinct signing keys.
pub post_init_iff : (c : ElectionConfig) → (post_init c ≡ ok tt) ↔ IsValid c
post_init_iff c = (
  λ h.
      let (a, b, d, e, f, g, i, m) = (post_init-facts c).0 h in
      record {
        candidates = a;
        budgets = b;
        branches = d;
        fee = e;
        scaling = f;
        window = g;
        committee = i;
        members = (to_set_iff (signing_keys c)).0 m;
      },
  λ v. (post_init-facts c).1 (
    v.candidates,
    v.budgets,
    v.branches,
    v.fee,
    v.scaling,
    v.window,
    v.committee,
    (to_set_iff (signing_keys c)).1 v.members,
  ),
)
