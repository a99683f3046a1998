-- ===== src/Modular/Signed.antt =====
-- Python's `(x * (a - b)) % q`, whose difference may be negative.
use native.Mathlib.Nat.{div-add-mod, mod-lt}
use generalised_elgamal_voti.Shared.{ℕ, ◌+◌, ◌*◌, ◌/◌, ◌<◌, arith}
use generalised_elgamal_voti.Shared.Int.{
  ℤ, pos, negsuc, pos_part, neg_part, sub_ℕ, ◌*ℤ◌, floor_mod, *ℤ-sub_parts,
}
use generalised_elgamal_voti.Modular.{Congruent}

floor_mod_parts : (q : ℕ) → 0 < q → (z : ℤ) → Congruent q (floor_mod z q + neg_part z) (pos_part z)
unfolding floor_mod
floor_mod_parts q h (pos n) = record {
  left = n / q;
  right = 0;
  same = omega (arith, div-add-mod n q);
}
floor_mod_parts q h (negsuc n) = record {
  left = 0;
  right = 1 + n / q;
  same = omega (arith, div-add-mod n q, mod-lt n h);
}

-- What Python computes is congruent to `x * a - x * b`.
pub floor_mod-sub-Congruent :
    (q : ℕ) → 0 < q → (x a b : ℕ) → Congruent q (floor_mod (pos x *ℤ sub_ℕ a b) q + x * b) (x * a)
floor_mod-sub-Congruent q h x a b =
    let z : ℤ = pos x *ℤ sub_ℕ a b in
    let c = floor_mod_parts q h z in
    record { left = c.left; right = c.right; same = omega (arith, c.same, *ℤ-sub_parts x a b) }

pub floor_mod-lt : (z : ℤ) (q : ℕ) → 0 < q → floor_mod z q < q
unfolding floor_mod
floor_mod-lt (pos n) q h = mod-lt n h
floor_mod-lt (negsuc n) q h = omega arith
