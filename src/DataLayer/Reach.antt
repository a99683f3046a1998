-- ===== src/DataLayer/Reach.antt =====
-- adapters/memory.py: sequences of accepted writes.
use generalised_elgamal_voti.Shared.{
  ℕ, ◌+◌, ◌^◌, ◌≤◌, ◌<◌, ◌≡◌, refl, sym, ap, ◌∙◌, subst, arith, inl, inr, ◌⊎◌, Bool, not, List,
  Option, none, some, ok, bind-ok, raise_if-ok, ok_injective, Bool-cases,
}
use generalised_elgamal_voti.Shared.Bytes.{Bytes, big_endian, from_bytes, from_bytes-big_endian}
use generalised_elgamal_voti.Shared.Keys.{same_list, same_list→≡, number_key, bytes_key}
use generalised_elgamal_voti.Shared.Dict.{lookup, insert, lookup-insert_self, lookup-insert_ne}
use generalised_elgamal_voti.Params.{to_bytes}
use generalised_elgamal_voti.Config.{ElectionConfig, new_threshold, post_init}
use generalised_elgamal_voti.Config.Checks.{post_init_iff, new_threshold_iff}
use generalised_elgamal_voti.Envelopes.{
  BallotEnvelope, DecryptionShareEnvelope, AggregateArtifact, ResultArtifact,
}
use generalised_elgamal_voti.WriteAuth.{SignatureLibrary, verify_register}
use generalised_elgamal_voti.DataLayer.Defs.{Stored, new_stored}
use generalised_elgamal_voti.DataLayer.Layer.{
  DataLayer, new_data_layer, put, register_election, cancel_election, submit_dkg_result,
  submit_ballot, submit_aggregate, submit_decryption_share, publish_result, set_tally_stalled,
}
use generalised_elgamal_voti.DataLayer.Written.{
  Written, cancel-Written, dkg-Written, vote-Written, result-Written, stall-Written,
  aggregate-Written, share-Written,
}
use generalised_elgamal_voti.DataLayer.Invariant.{WellFormed, Change-WellFormed}
use generalised_elgamal_voti.DataLayer.Extension.{
  Extends, Extends-refl, Extends-trans, Change-Extends,
}

some_injective : {A : Type 0} (a b : A) → ◌≡◌ {A = Option A} (some a) (some b) → a ≡ b
some_injective a b h = cc

module _ (lib : SignatureLibrary) where
  -- An accepted write. A configuration has a `Threshold`, which its constructor checks.
  pub data Step (d d2 : DataLayer) : Type 0 where
    register :
        (config : ElectionConfig) (sig id : Bytes)
        → new_threshold config.threshold.t config.threshold.n ≡ ok config.threshold
        → register_election lib config sig d ≡ ok (id, d2)
        → Step d d2
    cancel : (now : ℕ) (id sig : Bytes) → cancel_election lib now id sig d ≡ ok d2 → Step d d2
    dkg :
        (id pk : Bytes) (pks : List Bytes) (sig : Bytes)
        → submit_dkg_result lib id pk pks sig d ≡ ok d2
        → Step d d2
    vote :
        (now : ℕ) (id : Bytes) (env : BallotEnvelope) (sig : Bytes) (seq : ℕ)
        → submit_ballot lib now id env sig d ≡ ok (seq, d2)
        → Step d d2
    aggregates :
        (now : ℕ) (id : Bytes) (a : AggregateArtifact) (sig : Bytes)
        → submit_aggregate lib now id a sig d ≡ ok d2
        → Step d d2
    shares :
        (now : ℕ) (id : Bytes) (sh : DecryptionShareEnvelope) (sig : Bytes)
        → submit_decryption_share lib now id sh sig d ≡ ok d2
        → Step d d2
    result :
        (id : Bytes) (r : ResultArtifact) (sig : Bytes)
        → publish_result lib id r sig d ≡ ok d2
        → Step d d2
    stall :
        (now later : ℕ) (id : Bytes) (b : Bool) (sig : Bytes) (issued_at : ℕ)
        → set_tally_stalled lib now later id b sig issued_at d ≡ ok d2
        → Step d d2

  pub data Reach (d : DataLayer) : DataLayer → Type 0 where
    here : Reach d d
    next : {e f : DataLayer} → Reach d e → Step e f → Reach d f

  -- Every stored election is well formed, stands under its own id, and its id was assigned.
  pub record IsSound (d : DataLayer) : Type 0 where
    pub each :
        (id : Bytes) (st : Stored)
        → lookup id d.elections ≡ some st
        → WellFormed st × (st.config.election_id ≡ id) × (from_bytes id ≤ d.next_id)

  new_stored-WellFormed :
      (config : ElectionConfig)
      → new_threshold config.threshold.t config.threshold.n ≡ ok config.threshold
      → post_init config ≡ ok tt
      → WellFormed (new_stored config)
  unfolding new_stored
  new_stored-WellFormed config threshold valid =
      let (_, _, majority) =
        (new_threshold_iff config.threshold.t config.threshold.n).0 threshold in
      let size = ((post_init_iff config).0 valid).committee in
      record { majority = omega arith; indices = tt; committee = tt; numbered = tt; timely = tt }

  -- What a step keeps of every election that is stored before it.
  abbrev pub Kept : DataLayer → DataLayer → Type 0
  Kept d d2 =
      (id : Bytes) (st : Stored)
      → lookup id d.elections ≡ some st
      → (new : Stored) × (lookup id d2.elections ≡ some new) × Extends lib st new

  Kept-refl : (d : DataLayer) → Kept d d
  Kept-refl d id st h = (st, h, Extends-refl lib st)

  Kept-trans : (d e f : DataLayer) → Kept d e → Kept e f → Kept d f
  Kept-trans d e f g k id st h =
      let (new, h1, x) = g id st h in
      let (newer, h2, y) = k id new h1 in (newer, h2, Extends-trans lib x y)

  Written-IsSound : (d d2 : DataLayer) → Written lib d d2 → IsSound d → IsSound d2
  Written-IsSound d d2 w s = record {
    each = λ id st h. elim (Bool-cases (same_list id w.id)) [
      | inl same ↦
          let e = same_list→≡ id w.id same in
          let (wf, own, low) = s.each w.id w.st w.stored in
          let here : st ≡ w.new = some_injective st w.new (
            sym h
            ∙ ap (λ x. lookup id x) (sym w.elections)
            ∙ ap (λ (i : Bytes). lookup i (insert w.id w.new d.elections)) e
            ∙ lookup-insert_self w.id w.new d.elections) in
          let x = Change-Extends lib w.change wf in
          rw (here, e)
            (
              Change-WellFormed lib w.change wf,
              ap (λ (c : ElectionConfig). c.election_id) (sym x.same_config) ∙ own,
              omega (arith, w.same_next, low),
            )
      | inr other ↦
          let there : lookup id d.elections ≡ some st =
            sym (lookup-insert_ne w.id id w.new d.elections other)
            ∙ ap (λ x. lookup id x) w.elections
            ∙ h in
          let (wf, own, low) = s.each id st there in (wf, own, omega (arith, w.same_next, low))
    ];
  }

  Written-Kept : (d d2 : DataLayer) → Written lib d d2 → IsSound d → Kept d d2
  Written-Kept d d2 w s id st h = elim (Bool-cases (same_list id w.id)) [
    | inl same ↦
        let e = same_list→≡ id w.id same in
        let (wf, _, _) = s.each w.id w.st w.stored in
        let here : st ≡ w.st =
          some_injective st w.st (sym h ∙ ap (λ (i : Bytes). lookup i d.elections) e ∙ w.stored) in
        (
          w.new,
          ap (λ x. lookup id x) (sym w.elections)
              ∙ ap (λ (i : Bytes). lookup i (insert w.id w.new d.elections)) e
              ∙ lookup-insert_self w.id w.new d.elections,
          subst (λ x. Extends lib x w.new) (sym here) (Change-Extends lib w.change wf),
        )
    | inr other ↦ (
      st,
      ap (λ x. lookup id x) (sym w.elections)
          ∙ lookup-insert_ne w.id id w.new d.elections other
          ∙ h,
      Extends-refl lib st,
    )
  ]

  -- A registration adds an election under a new id.
  record Registered (d d2 : DataLayer) : Type 0 where
    id : Bytes
    new : Stored
    fresh : from_bytes id ≡ d.next_id + 1
    elections : insert id new d.elections ≡ d2.elections
    one_more : d.next_id + 1 ≡ d2.next_id
    own : new.config.election_id ≡ id
    sound : WellFormed new

  to_bytes-ok : (n k : ℕ) (b : Bytes) → to_bytes n k ≡ ok b → (n < 256 ^ k) × (big_endian k n ≡ b)
  unfolding to_bytes
  to_bytes-ok n k b h = ground arith

  register-Registered :
      (d d2 : DataLayer) (config : ElectionConfig) (sig id : Bytes)
      → new_threshold config.threshold.t config.threshold.n ≡ ok config.threshold
      → register_election lib config sig d ≡ ok (id, d2)
      → Registered d d2
  unfolding register_election put new_stored
  register-Registered d d2 config sig id threshold h =
      let (_, h1) =
        raise_if-ok (not (verify_register lib config.admin_key sig config)) _ _ (id, d2) h in
      let (bs, encoded, h2) = bind-ok (to_bytes (d.next_id + 1) 32) _ (id, d2) h1 in
      let (_, h3) = raise_if-ok (not (same_list config.election_id bs)) _ _ (id, d2) h2 in
      let stored : ElectionConfig = record config { election_id = bs } in
      let (_, valid, h4) = bind-ok (post_init stored) _ (id, d2) h3 in
      let e = ok_injective _ (id, d2) h4 in
      let (fits, bytes) = to_bytes-ok (d.next_id + 1) 32 bs encoded in
      record {
        id = bs;
        new = new_stored stored;
        fresh = ap from_bytes (sym bytes) ∙ from_bytes-big_endian 32 (d.next_id + 1) fits;
        elections = ap (λ (t : Bytes × DataLayer). t.1.elections) e;
        one_more = ap (λ (t : Bytes × DataLayer). t.1.next_id) e;
        own = refl;
        sound = new_stored-WellFormed stored threshold valid;
      }

  Registered-IsSound : (d d2 : DataLayer) → Registered d d2 → IsSound d → IsSound d2
  Registered-IsSound d d2 w s = record {
    each = λ id st h. elim (Bool-cases (same_list id w.id)) [
      | inl same ↦
          let e = same_list→≡ id w.id same in
          let here : st ≡ w.new = some_injective st w.new (
            sym h
            ∙ ap (λ x. lookup id x) (sym w.elections)
            ∙ ap (λ (i : Bytes). lookup i (insert w.id w.new d.elections)) e
            ∙ lookup-insert_self w.id w.new d.elections) in
          rw (here, e) (w.sound, w.own, omega (arith, w.fresh, w.one_more))
      | inr other ↦
          let there : lookup id d.elections ≡ some st =
            sym (lookup-insert_ne w.id id w.new d.elections other)
            ∙ ap (λ x. lookup id x) w.elections
            ∙ h in
          let (wf, own, low) = s.each id st there in (wf, own, omega (arith, w.one_more, low))
    ];
  }

  Registered-Kept : (d d2 : DataLayer) → Registered d d2 → IsSound d → Kept d d2
  Registered-Kept d d2 w s id st h = elim (Bool-cases (same_list id w.id)) [
    | inl same ↦
        let (_, _, low) = s.each id st h in
        absurd (omega (arith, w.fresh, low, ap from_bytes (same_list→≡ id w.id same)))
    | inr other ↦ (
      st,
      ap (λ x. lookup id x) (sym w.elections)
          ∙ lookup-insert_ne w.id id w.new d.elections other
          ∙ h,
      Extends-refl lib st,
    )
  ]

  -- What an election is stored under.
  own_id :
      (d : DataLayer)
      → IsSound d
      → (id : Bytes) (st : Stored) → lookup id d.elections ≡ some st
      → st.config.election_id ≡ id
  own_id d s id st h = (s.each id st h).1

  Step-Written_or_Registered :
      (d d2 : DataLayer) → IsSound d → Step d d2 → Written lib d d2 ⊎ Registered d d2
  Step-Written_or_Registered d d2 s (register config sig id threshold h) =
      inr (register-Registered d d2 config sig id threshold h)
  Step-Written_or_Registered d d2 s (cancel now id sig h) =
      inl (cancel-Written lib d d2 now id sig h)
  Step-Written_or_Registered d d2 s (dkg id pk pks sig h) =
      inl (dkg-Written lib d d2 id pk pks sig h)
  Step-Written_or_Registered d d2 s (vote now id env sig seq h) =
      inl (vote-Written lib d d2 now id env sig seq h)
  Step-Written_or_Registered d d2 s (aggregates now id a sig h) =
      inl (aggregate-Written lib d d2 now id a sig (own_id d s id) h)
  Step-Written_or_Registered d d2 s (shares now id sh sig h) =
      inl (share-Written lib d d2 now id sh sig (own_id d s id) h)
  Step-Written_or_Registered d d2 s (result id r sig h) = inl (result-Written lib d d2 id r sig h)
  Step-Written_or_Registered d d2 s (stall now later id b sig issued_at h) =
      inl (stall-Written lib d d2 now later id b sig issued_at h)

  Step-IsSound : {d d2 : DataLayer} → Step d d2 → IsSound d → IsSound d2 × Kept d d2
  Step-IsSound {d} {d2} step s = elim (Step-Written_or_Registered d d2 s step) [
    | inl w ↦ (Written-IsSound d d2 w s, Written-Kept d d2 w s)
    | inr r ↦ (Registered-IsSound d d2 r s, Registered-Kept d d2 r s)
  ]

  new_data_layer-IsSound : IsSound new_data_layer
  unfolding new_data_layer
  new_data_layer-IsSound = record { each = λ id st h. absurd (nothing_stored st h) }
    where
      nothing_stored : (st : Stored) → ◌≡◌ {A = Option Stored} none (some st) → ⊥
      nothing_stored st h = cc

  -- After any accepted writes, from a layer that is sound.
  Reach-IsSound-Kept : (d e : DataLayer) → IsSound d → Reach d e → IsSound e × Kept d e
  Reach-IsSound-Kept d e s here = (s, Kept-refl d)
  Reach-IsSound-Kept d e s (next {e = middle} reach step) =
      let (t, kept) = Reach-IsSound-Kept d middle s reach in
      let (u, more) = Step-IsSound step t in (u, Kept-trans d middle e kept more)

  pub Reach-IsSound : (d : DataLayer) → Reach new_data_layer d → IsSound d
  Reach-IsSound d reach = (Reach-IsSound-Kept new_data_layer d new_data_layer-IsSound reach).0

  -- Accepted writes take nothing final away: an election that was stored is stored, with the same
  -- configuration, its ballots in front of later ones, the keypers' submissions and shares, its result,
  -- its finalized key and its canonical aggregate.
  pub Reach-Kept :
      (d e : DataLayer)
      → Reach new_data_layer d
      → Reach d e
      → (id : Bytes) (st : Stored) → lookup id d.elections ≡ some st
      → (new : Stored) × (lookup id e.elections ≡ some new) × Extends lib st new
  Reach-Kept d e start reach = (Reach-IsSound-Kept d e (Reach-IsSound d start) reach).1
