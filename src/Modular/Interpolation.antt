-- ===== src/Modular/Interpolation.antt =====
-- Polynomial functions modulo `q` by their divided differences, and their roots.
use generalised_elgamal_voti.Shared.{
  ℕ, zero, suc, ◌+◌, ◌*◌, ◌≤◌, ap, arith, List, [], ◌∷◌, length, All,
}
use generalised_elgamal_voti.Modular.{Congruent, Congruent-add, Congruent-refl}

module _ (q : ℕ) where
  -- `f` is a polynomial function of degree below `n`: its divided difference at each point is one
  -- of degree below `n - 1`.
  abbrev pub DegreeBelow : ℕ → (ℕ → ℕ) → Type 0
  DegreeBelow zero f = (x : ℕ) → Congruent q (f x) 0
  DegreeBelow (suc n) f =
      (a : ℕ)
      → (g : ℕ → ℕ) × DegreeBelow n g × ((x : ℕ) → Congruent q (f x + a * g x) (f a + x * g x))

  pub weaken : (n : ℕ) (f : ℕ → ℕ) → DegreeBelow n f → DegreeBelow (suc n) f
  weaken zero f d = λ a. (
    λ x. 0,
    λ x. Congruent-refl q 0,
    λ x. record {
      left = (d x).left + (d a).right;
      right = (d x).right + (d a).left;
      same = omega (arith, (d x).same, (d a).same);
    },
  )
  weaken (suc n) f d = λ a. let (g, dg, e) = d a in (g, weaken n g dg, e)

  pub sum-DegreeBelow :
      (n : ℕ) (f h : ℕ → ℕ) → DegreeBelow n f → DegreeBelow n h → DegreeBelow n (λ x. f x + h x)
  sum-DegreeBelow zero f h df dh = λ x. Congruent-add q (df x) (dh x)
  sum-DegreeBelow (suc n) f h df dh = λ a.
      let (g, dg, eg) = df a in
      let (k, dk, ek) = dh a in
      (
        λ x. g x + k x,
        sum-DegreeBelow n g k dg dk,
        λ x. record {
          left = (eg x).left + (ek x).left;
          right = (eg x).right + (ek x).right;
          same = omega (arith, (eg x).same, (ek x).same);
        },
      )

  pub scale-DegreeBelow : (n c : ℕ) (f : ℕ → ℕ) → DegreeBelow n f → DegreeBelow n (λ x. c * f x)
  scale-DegreeBelow zero c f d = λ x. record {
    left = c * (d x).left;
    right = c * (d x).right;
    same = omega (arith, ap (λ (t : ℕ). c * t) (d x).same);
  }
  scale-DegreeBelow (suc n) c f d = λ a.
      let (g, dg, e) = d a in
      (
        λ x. c * g x,
        scale-DegreeBelow n c g dg,
        λ x. record {
          left = c * (e x).left;
          right = c * (e x).right;
          same = omega (arith, ap (λ (t : ℕ). c * t) (e x).same);
        },
      )

  -- A constant plus a linear factor times `f`.
  pub linear-DegreeBelow :
      (n c k : ℕ) (f : ℕ → ℕ) → DegreeBelow n f → DegreeBelow (suc n) (λ x. c + (x + k) * f x)
  linear-DegreeBelow zero c k f d = λ a. (
    λ x. 0,
    λ x. Congruent-refl q 0,
    λ x. record {
      left = (x + k) * (d x).left + (a + k) * (d a).right;
      right = (x + k) * (d x).right + (a + k) * (d a).left;
      same =
          omega
            (arith, ap (λ (t : ℕ). (x + k) * t) (d x).same, ap (λ (t : ℕ). (a + k) * t) (d a).same);
    },
  )
  linear-DegreeBelow (suc n) c k f d = λ a.
      let (g, dg, e) = d a in
      (
        λ x. f x + (a + k) * g x,
        sum-DegreeBelow (suc n) f (λ x. (a + k) * g x) d
            (scale-DegreeBelow (suc n) (a + k) g (weaken n g dg)),
        λ x. record {
          left = (a + k) * (e x).left;
          right = (a + k) * (e x).right;
          same = omega (arith, ap (λ (t : ℕ). (a + k) * t) (e x).same);
        },
      )

  -- `x - y` has an inverse modulo `q`.
  pub record Apart (x y : ℕ) : Type 0 where
    pub inverse : ℕ
    pub law : Congruent q (inverse * x) (inverse * y + 1)

  abbrev pub PairwiseApart : List ℕ → Type 0
  PairwiseApart [] = Unit
  PairwiseApart (x ∷ xs) = All (λ y. Apart y x) xs × PairwiseApart xs

  zero_quotient :
      (f g : ℕ → ℕ) (a r : ℕ)
      → Congruent q (f r + a * g r) (f a + r * g r)
      → Congruent q (f a) 0
      → Congruent q (f r) 0
      → Apart r a
      → Congruent q (g r) 0
  zero_quotient f g a r e fa fr gap = record {
    left = gap.law.right * g r + gap.inverse * (fr.left + fa.right + e.right);
    right = gap.law.left * g r + gap.inverse * (fr.right + fa.left + e.left);
    same = omega (
      arith,
      ap (λ (t : ℕ). t * g r) gap.law.same,
      ap (λ (t : ℕ). gap.inverse * t) e.same,
      ap (λ (t : ℕ). gap.inverse * t) fa.same,
      ap (λ (t : ℕ). gap.inverse * t) fr.same,
    );
  }

  quotient_roots :
      (f g : ℕ → ℕ) (a : ℕ) (rest : List ℕ)
      → ((x : ℕ) → Congruent q (f x + a * g x) (f a + x * g x))
      → Congruent q (f a) 0
      → All (λ y. Apart y a) rest
      → All (λ x. Congruent q (f x) 0) rest
      → All (λ x. Congruent q (g x) 0) rest
  quotient_roots f g a [] e fa gaps roots = tt
  quotient_roots f g a (r ∷ rest) e fa gaps roots =
      (zero_quotient f g a r (e r) fa roots.0 gaps.0, quotient_roots f g a rest e fa gaps.1 roots.1)

  -- A polynomial function of degree below `n` with `n` roots that are apart is zero.
  pub zero_of_roots :
      (n : ℕ) (f : ℕ → ℕ) (xs : List ℕ)
      → DegreeBelow n f
      → n ≤ length xs
      → PairwiseApart xs
      → All (λ x. Congruent q (f x) 0) xs
      → (x : ℕ) → Congruent q (f x) 0
  zero_of_roots zero f xs d len gaps roots x = d x
  zero_of_roots (suc n) f [] d len gaps roots x = absurd (omega arith)
  zero_of_roots (suc n) f (a ∷ rest) d len gaps roots x =
      let (g, dg, e) = d a in
      let gx : Congruent q (g x) 0 =
        zero_of_roots n g rest dg (omega arith) gaps.1
          (quotient_roots f g a rest e roots.0 gaps.0 roots.1) x in
      record {
        left = (e x).left + a * gx.right + roots.0.left + x * gx.left;
        right = (e x).right + a * gx.left + roots.0.right + x * gx.right;
        same = omega (
          arith,
          (e x).same,
          roots.0.same,
          ap (λ (t : ℕ). a * t) gx.same,
          ap (λ (t : ℕ). x * t) gx.same,
        );
      }
