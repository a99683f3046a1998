-- ===== src/Dkg/Ceremony.antt =====
-- services/coordinator/dkg_coordinator.py: the two rounds of `run_dkg_once`, with crypto/dkg.py.
use generalised_elgamal_voti.Shared.{
  ℕ, zero, suc, ◌+◌, ◌≤◌, ◌<◌, ◌≡◌, refl, sym, subst, ap, ◌∙◌, arith, inl, inr, false, List, [],
  ◌∷◌, length, All, Distinct, Option, none, some, ok, err, Fallible, key_error, ◌>>=◌, ◌==◌, ==_iff,
  Bool-cases,
}
use generalised_elgamal_voti.Shared.Keys.{number_key}
use generalised_elgamal_voti.Shared.Dict.{Dict, lookup, keys}
use generalised_elgamal_voti.Points.{PointLibrary, IsPrimeOrderGroup}
use generalised_elgamal_voti.Dkg.Defs.{
  KeyperDkgState, eval_share, deal_shares, is_bad_dealer, find_bad_dealers, combine_received,
  round1, round2,
}
use generalised_elgamal_voti.Dkg.Feldman.{round1-verify_share}
use generalised_elgamal_voti.Dkg.Round2.{lookup-entries}

-- `d[k]`
unfoldable pub at_key : {V : Type 0} → ℕ → Dict ℕ V → Fallible V
at_key k d = elim (lookup k d) [ none ↦ err key_error | some v ↦ ok v ]

module _ (L : PointLibrary) (n quorum : ℕ) where
  -- The loop of round 1: the dealers, each with its state and the coefficients that it draws.
  unfoldable pub all_commitments : Dict ℕ (KeyperDkgState L × List ℕ) → Dict ℕ (List L.Point)
  unfolding round1
  all_commitments [] = []
  all_commitments ((d, (s, drawn)) ∷ dealers) =
      let (_, comms, _) = round1 L drawn s d n quorum in (d, comms) ∷ all_commitments dealers

  -- `{dealer: all_shares[dealer][k.index] for dealer in all_commitments}`
  unfoldable pub shares_for : (index : ℕ) → Dict ℕ (KeyperDkgState L × List ℕ) → Fallible (Dict ℕ ℕ)
  unfolding round1 at_key
  shares_for index [] = ok []
  shares_for index ((d, (s, drawn)) ∷ dealers) = do
    let (_, _, shares) = round1 L drawn s d n quorum
    share ← at_key index shares
    rest ← shares_for index dealers
    ok ((d, share) ∷ rest)

lookup-deal_shares :
    (drawn : List ℕ) (index i k : ℕ)
    → i ≤ index
    → index < i + k
    → lookup index (deal_shares drawn i k) ≡ some (eval_share index 0 1 drawn)
unfolding deal_shares
lookup-deal_shares drawn index i zero low high = absurd (omega arith)
lookup-deal_shares drawn index i (suc k) low high = elim (Bool-cases (index == i)) [
  | inl same ↦
      rw same (ap (λ (j : ℕ). some (eval_share j 0 1 drawn)) (sym ((==_iff index i).0 same)))
  | inr other ↦ rw other (lookup-deal_shares drawn index (i + 1) k (ground arith) (omega arith))
]

All-lookup :
    {T : Type 0} (P : ℕ × T → Type 0) (d : Dict ℕ T) (k : ℕ) (v : T)
    → All P d
    → lookup k d ≡ some v
    → P (k, v)
All-lookup {T = T} P [] k v h e = absurd (cc)
All-lookup {T = T} P ((j, w) ∷ d) k v h e = elim (Bool-cases (k == j)) [
  | inl same ↦
      let first : ◌≡◌ {A = Option _} (some w) (some v) = sym (rw same refl) ∙ e in
      subst P (sym (pair ((==_iff k j).0 same) first)) h.0
  | inr other ↦ All-lookup P d k v h.1 (sym (rw other refl) ∙ e)
]
  where
    pair : k ≡ j → ◌≡◌ {A = Option T} (some w) (some v) → ◌≡◌ {A = ℕ × T} (k, v) (j, w)
    pair a b = cc

module _ (L : PointLibrary) (laws : IsPrimeOrderGroup L) (n quorum index : ℕ) (low : 1 ≤ index)
    (high : index ≤ n) where
  -- A dealer of round 1 is not refused in round 2.
  honest_dealer :
      (all : Dict ℕ (List L.Point)) (d : ℕ) (s : KeyperDkgState L) (drawn : List ℕ)
      → length drawn ≡ quorum
      → lookup d all ≡ some (round1 L drawn s d n quorum).1
      → (share : ℕ) × (at_key index (round1 L drawn s d n quorum).2 ≡ ok share)
        × (is_bad_dealer L all index quorum d share ≡ false)
  unfolding is_bad_dealer at_key round1
  honest_dealer all d s drawn size there =
      let (count, fits) = round1-verify_share L laws drawn s d n quorum in
      let dealt = lookup-deal_shares drawn index 1 n low (omega arith) in
      let fit =
        All-lookup _ (deal_shares drawn 1 n) index (eval_share index 0 1 drawn) fits dealt in
      (
        eval_share index 0 1 drawn,
        rw (at_key, dealt) refl,
        rw (is_bad_dealer, there, (==_iff _ _).1 (count ∙ size), fit) refl,
      )

  shares_for-good :
      (all : Dict ℕ (List L.Point)) (part : Dict ℕ (KeyperDkgState L × List ℕ))
      → All (λ e. length e.1.1 ≡ quorum) part
      → All (λ e. lookup e.0 all ≡ some e.1) (all_commitments L n quorum part)
      → (received : Dict ℕ ℕ) × (shares_for L n quorum index part ≡ ok received)
        × (keys received ≡ keys (all_commitments L n quorum part))
        × (find_bad_dealers L all index quorum received ≡ [])
  unfolding shares_for all_commitments find_bad_dealers
  shares_for-good all [] sizes reads = ([], refl, refl, refl)
  shares_for-good all ((d, (s, drawn)) ∷ part) (size, sizes) (there, reads) =
      let (share, sent, good) = honest_dealer all d s drawn size there in
      let (received, rest, same, none_bad) = shares_for-good all part sizes reads in
      ((d, share) ∷ received, rw (sent, rest) refl, ap (◌∷◌ d) same, rw (good, none_bad) refl)

  combine_received-returns :
      (k : KeyperDkgState L) (received : Dict ℕ ℕ)
      → (after : KeyperDkgState L) × (share : ℕ) × (public : L.Point) × (combine_received L k
            received []
          ≡ ok (after, share, public))
  unfolding combine_received
  combine_received-returns k received = (_, _, _, refl)

  -- When distinct dealers ran round 1 for n keypers with `quorum` coefficients each, whatever these are,
  -- every keyper of an index from 1 to n finds a share for it from every dealer, and its round 2 on all
  -- commitments and these shares returns.
  pub shares_for-round2 :
      (dealers : Dict ℕ (KeyperDkgState L × List ℕ)) (k : KeyperDkgState L)
      → Distinct (keys (all_commitments L n quorum dealers))
      → All (λ e. length e.1.1 ≡ quorum) dealers
      → k.keyper_id ≡ index
      → k.quorum ≡ quorum
      → (received : Dict ℕ ℕ) × (after : KeyperDkgState L) × (share : ℕ) × (public : L.Point)
        × (shares_for L n quorum index dealers ≡ ok received)
        × (keys received ≡ keys (all_commitments L n quorum dealers))
        × (round2 L k (all_commitments L n quorum dealers) received ≡ ok (after, share, public))
  unfolding round2
  shares_for-round2 dealers k distinct sizes own size =
      let all = all_commitments L n quorum dealers in
      let (received, sent, same, none_bad) =
        shares_for-good all dealers sizes (lookup-entries all distinct) in
      let (after, share, public, returned) = combine_received-returns k received in
      (
        received,
        after,
        share,
        public,
        sent,
        same,
        ap (combine_received L k received) (bad all received k own size none_bad) ∙ returned,
      )
    where
      bad :
          (all : Dict ℕ (List L.Point)) (received : Dict ℕ ℕ) (k : KeyperDkgState L)
          → k.keyper_id ≡ index
          → k.quorum ≡ quorum
          → find_bad_dealers L all index quorum received ≡ []
          → find_bad_dealers L all k.keyper_id k.quorum received ≡ []
      bad all received k own size none_bad = rw (own, size) none_bad
