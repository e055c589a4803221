-- ===== src/GitHub/Acquired.antt =====
-- `acquiredAll` compares multisets.
use Prim.Native.Nat.{suc}
use runner_loom.Base.{
  ℕ, ◌≤◌, true, none, some, List, [], ◌∷◌, ◌≡◌, ◌↔◌, refl, ap, subst, inl, inr, arith, Bool-cases,
  Option-cases, if◌then◌else◌, ap₂,
}
use runner_loom.Base.Int64.{ℤ, pos, negsuc, eq_ℤ}
use runner_loom.Safety.Repeats.{eq_ℤ-refl}
use runner_loom.GitHub.Intake.{take_one, acquired_all}

-- How often a request stands in a list.
unfoldable pub times : ℤ → List ℤ → ℕ
times x [] = 0
times x (y ∷ ys) = let rest = times x ys in if eq_ℤ y x then suc rest else rest

eq_ℤ-eq : (a b : ℤ) → eq_ℤ a b ≡ true → a ≡ b
eq_ℤ-eq (pos n) (pos m) h = ap pos (ground arith)
eq_ℤ-eq (pos n) (negsuc m) h = ground arith
eq_ℤ-eq (negsuc n) (pos m) h = ground arith
eq_ℤ-eq (negsuc n) (negsuc m) h = ap negsuc (ground arith)

take_one-none : (id : ℤ) (xs : List ℤ) → take_one id xs ≡ none → times id xs ≡ 0
unfolding take_one times
take_one-none id [] h = refl
take_one-none id (x ∷ xs) h = elim (Bool-cases (eq_ℤ x id)) [
  | inl e ↦ cc (rw e at h)
  | inr e ↦ elim (Option-cases (take_one id xs)) [
    | inl f ↦ rw e (take_one-none id xs f)
    | inr (ys, f) ↦ cc (rw (e, f) at h)
  ]
]

take_one-times :
    (id x : ℤ) (xs rest : List ℤ) → take_one id xs ≡ some rest → times x xs ≡ times x (id ∷ rest)
unfolding take_one times
take_one-times id x [] rest h = cc
take_one-times id x (y ∷ ys) rest h = elim (Bool-cases (eq_ℤ y id)) [
  | inl e ↦
      let p : ys ≡ rest = cc (rw e at h) in ap (times x) (ap₂ (λ a b. a ∷ b) (eq_ℤ-eq y id e) p)
  | inr e ↦ elim (Option-cases (take_one id ys)) [
    | inl f ↦ cc (rw (e, f) at h)
    | inr (zs, f) ↦
        let p : y ∷ zs ≡ rest = cc (rw (e, f) at h) in
        let more = take_one-times id x ys zs f in
        subst (λ r. times x (y ∷ ys) ≡ times x (id ∷ r)) p (ground arith)
  ]
]

acquired_all-le :
    (want got : List ℤ) → acquired_all want got ≡ true → (x : ℤ) → times x want ≤ times x got
unfolding acquired_all times
acquired_all-le [] got h x = omega arith
acquired_all-le (id ∷ want) got h x = elim (Option-cases (take_one id got)) [
  | inl e ↦ cc (rw (e, acquired_all) at h)
  | inr (rest, e) ↦
      let more = acquired_all-le want rest (rw (e, acquired_all) at h) x in
      let q = take_one-times id x got rest e in ground arith
]

le-acquired_all :
    (want got : List ℤ) → ((x : ℤ) → times x want ≤ times x got) → acquired_all want got ≡ true
unfolding acquired_all times
le-acquired_all [] got h = refl
le-acquired_all (id ∷ want) got h = elim (Option-cases (take_one id got)) [
  | inl e ↦
      let none_left = take_one-none id got e in
      let one = h id in let same = eq_ℤ-refl id in absurd (ground arith)
  | inr (rest, e) ↦ rw (e, acquired_all) (le-acquired_all want rest (λ x. fewer x rest e))
]
  where
    fewer : (x : ℤ) (rest : List ℤ) → take_one id got ≡ some rest → times x want ≤ times x rest
    fewer x rest e = let q = take_one-times id x got rest e in let all = h x in ground arith

-- AcquiredAll holds exactly when GitHub acquired every requested ID at least as often as it was
-- requested.
pub acquired_all_iff :
    (want got : List ℤ) → (acquired_all want got ≡ true) ↔ ((x : ℤ) → times x want ≤ times x got)
acquired_all_iff want got = (acquired_all-le want got, le-acquired_all want got)
