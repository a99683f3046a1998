-- ===== src/Quorum.antt =====
-- core/quorum.py: the artifact that a quorum of keypers agrees on; and the grouping of the
-- submissions by artifact with which adapters/memory.py calls it.
use generalised_elgamal_voti.Shared.{
  ℕ, Bool, false, ◌||◌, List, [], ◌∷◌, ◌++◌, length, leb, ◌==◌, if◌then◌else◌, Option, none, some,
  ok, err, quorum_conflict_error, Fallible,
}
use generalised_elgamal_voti.Shared.Keys.{KeyType}
use generalised_elgamal_voti.Shared.Dict.{Dict}
pub mod Groups
pub mod Agreement

module _ {A : Type 0} where
  -- Those that `needed` keypers submitted.
  unfoldable pub finalized : Dict A (List ℕ) → ℕ → List A
  finalized [] needed = []
  finalized ((value, keypers) ∷ groups) needed =
      let rest = finalized groups needed in
      if leb needed (length keypers) then value ∷ rest else rest

  unfoldable pub only : List A → Fallible (Option A)
  only [] = ok none
  only (value ∷ []) = ok (some value)
  only (_ ∷ _ ∷ _) = err quorum_conflict_error

  unfoldable pub resolve_unique : Dict A (List ℕ) → ℕ → Fallible (Option A)
  unfolding finalized only
  resolve_unique groups needed = only (finalized groups needed)

unfoldable pub contains : ℕ → List ℕ → Bool
contains i [] = false
contains i (j ∷ js) = (i == j) || contains i js

-- `keypers.add(i)`
unfoldable pub add : ℕ → List ℕ → List ℕ
unfolding contains
add i keypers = if contains i keypers then keypers else keypers ++ i ∷ []

module _ {A : Type 0} ⦃key : KeyType A⦄ where
  -- `groups.setdefault(value, set()).add(i)`
  unfoldable pub add_to_group : A → ℕ → Dict A (List ℕ) → Dict A (List ℕ)
  unfolding add
  add_to_group value i [] = (value, i ∷ []) ∷ []
  add_to_group value i (g ∷ groups) =
      if key.same value g.0 then (g.0, add i g.1) ∷ groups else g ∷ add_to_group value i groups

  -- The loop over the submissions by keyper.
  unfoldable pub group_from : Dict A (List ℕ) → Dict ℕ A → Dict A (List ℕ)
  unfolding add_to_group
  group_from groups [] = groups
  group_from groups ((i, value) ∷ submissions) =
      group_from (add_to_group value i groups) submissions
