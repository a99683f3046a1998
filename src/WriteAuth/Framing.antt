-- ===== src/WriteAuth/Framing.antt =====
-- core/authz.py: the framing of requests, and core/write_auth.py: the separation of dealt and revealed
-- shares.
use generalised_elgamal_voti.Shared.{
  ℕ, ◌^◌, ◌<◌, ◌≡◌, ◌≢◌, refl, sym, ap, ◌∙◌, arith, ◌++◌, length, get_elem?, Option, none, some, ok,
  bind-ok, ok_injective,
}
use generalised_elgamal_voti.Shared.Bytes.{Bytes, big_endian}
use generalised_elgamal_voti.Shared.Framing.{append_injective, number_injective, framed_injective}
use generalised_elgamal_voti.Params.{to_bytes_fits, u32be, to_bytes}
use generalised_elgamal_voti.Transcript.{join}
use generalised_elgamal_voti.WriteAuth.Library.{SignatureLibrary}
use generalised_elgamal_voti.WriteAuth.Digests.{
  dkg_share_dst, dkg_reveal_dst, dkg_share_digest, dkg_reveal_digest,
}
use generalised_elgamal_voti.WriteAuth.Requests.{request_preimage, request_dst}

-- What `len(x).to_bytes(4, "big")` says of a length that it encodes.
u32be_fits : (n : ℕ) (b : Bytes) → u32be n ≡ ok b → (n < 256 ^ 4) × (b ≡ big_endian 4 n)
unfolding u32be
u32be_fits n b h = to_bytes_fits n 4 b h

request_preimage_parts :
    (op id payload m : Bytes)
    → request_preimage op id payload ≡ ok m
    → (length op < 256 ^ 4)
      × (length id < 256 ^ 4)
      × (length payload < 256 ^ 4)
      × (m
          ≡ request_dst
            ++ (big_endian 4 (length op)
                ++ (op
                    ++ (big_endian 4 (length id)
                        ++ (id ++ (big_endian 4 (length payload) ++ payload))))))
unfolding request_preimage
request_preimage_parts op id payload m h =
    let (b1, e1, h1) = bind-ok (u32be (length op)) _ m h in
    let (b2, e2, h2) = bind-ok (u32be (length id)) _ m h1 in
    let (b3, e3, h3) = bind-ok (u32be (length payload)) _ m h2 in
    let (s1, p1) = u32be_fits (length op) b1 e1 in
    let (s2, p2) = u32be_fits (length id) b2 e2 in
    let (s3, p3) = u32be_fits (length payload) b3 e3 in
    (s1, s2, s3, sym (ok_injective _ m h3) ∙ rw (p1, p2, p3))

-- Requests with the same bytes below the digest have the same operation, election and payload: the
-- framing lets no field stand for a boundary.
pub request_preimage_injective :
    (op id payload op2 id2 payload2 m : Bytes)
    → request_preimage op id payload ≡ ok m
    → request_preimage op2 id2 payload2 ≡ ok m
    → (op ≡ op2) × (id ≡ id2) × (payload ≡ payload2)
request_preimage_injective op id payload op2 id2 payload2 m h h2 =
    let (s1, s2, s3, e) = request_preimage_parts op id payload m h in
    let (r1, r2, r3, f) = request_preimage_parts op2 id2 payload2 m h2 in
    let (_, e1) = append_injective request_dst request_dst _ _ refl (sym e ∙ f) in
    let (same_op, e2) = framed_injective 4 op op2 _ _ s1 r1 e1 in
    let (same_id, e3) = framed_injective 4 id id2 _ _ s2 r2 e2 in
    let (same_size, same_payload) =
      number_injective 4 (length payload) (length payload2) payload payload2 s3 r3 e3 in
    (same_op, same_id, same_payload)

-- The byte after "SHUTTER-GOVERNANCE-PROTOCOL-DKG-": the letter "S" or "R".
abbrev first_letter : Option ℕ → ℕ
first_letter none = 0
first_letter (some b) = b

dst_distinct : (a b : Bytes) → dkg_share_dst ++ a ≢ dkg_reveal_dst ++ b
dst_distinct a b e = letters (ap (λ (bs : Bytes). first_letter (get_elem? bs 32)) e)
  where
    letters : ◌≡◌ {A = ℕ} 83 82 → ⊥
    letters same = omega arith

module _ (lib : SignatureLibrary) where
  dkg_share_digest_parts :
      (id : Bytes) (dealer recipient share : ℕ) (x : Bytes)
      → dkg_share_digest lib id dealer recipient share ≡ ok x
      → (rest : Bytes) × (x ≡ lib.keccak (dkg_share_dst ++ rest))
  unfolding dkg_share_digest join
  dkg_share_digest_parts id dealer recipient share x h =
      let (b1, e1, h1) = bind-ok (to_bytes dealer 8) _ x h in
      let (b2, e2, h2) = bind-ok (to_bytes recipient 8) _ x h1 in (_, sym (ok_injective _ x h2))

  dkg_reveal_digest_parts :
      (id : Bytes) (dealer recipient share : ℕ) (x : Bytes)
      → dkg_reveal_digest lib id dealer recipient share ≡ ok x
      → (rest : Bytes) × (x ≡ lib.keccak (dkg_reveal_dst ++ rest))
  unfolding dkg_reveal_digest join
  dkg_reveal_digest_parts id dealer recipient share x h =
      let (b1, e1, h1) = bind-ok (to_bytes dealer 8) _ x h in
      let (b2, e2, h2) = bind-ok (to_bytes recipient 8) _ x h1 in (_, sym (ok_injective _ x h2))

  -- If the digest of a dealt share is also the digest of a revealed share, of any elections, dealers,
  -- recipients and shares, then keccak has a collision: two different byte strings with that digest.
  pub dkg_share_digest-dkg_reveal_digest :
      (id id2 : Bytes) (dealer dealer2 recipient recipient2 share share2 : ℕ) (x : Bytes)
      → dkg_share_digest lib id dealer recipient share ≡ ok x
      → dkg_reveal_digest lib id2 dealer2 recipient2 share2 ≡ ok x
      → (m : Bytes) × (m2 : Bytes) × (m ≢ m2) × (lib.keccak m ≡ x) × (lib.keccak m2 ≡ x)
  dkg_share_digest-dkg_reveal_digest id id2 dealer dealer2 recipient recipient2 share share2 x h
        h2 =
      let (a, e) = dkg_share_digest_parts id dealer recipient share x h in
      let (b, f) = dkg_reveal_digest_parts id2 dealer2 recipient2 share2 x h2 in
      (dkg_share_dst ++ a, dkg_reveal_dst ++ b, dst_distinct a b, sym e, sym f)
