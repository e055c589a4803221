-- ===== src/Host/Disjoint.antt =====
-- The subnet that `availableSubnet` suggests and the host's routes.
use native.Mathlib.Nat.{pow-suc, div-div-eq-div-mul}
use native.Mathlib.Numerals.{unary_clauses}
use runner_loom.Base.{
  ℕ, zero, suc, ◌+◌, ◌-◌, ◌*◌, ◌/◌, ◌^◌, ◌%◌, ◌≤◌, Bool, true, false, List, [], ◌∷◌, ◌≡◌, refl, ap,
  sym, ◌∙◌, In, inl, inr, Result, ok, err, Fault, ok-injective, arith, Bool-cases, subst,
}
use runner_loom.Host.Subnet.{
  Prefix, width, is_valid, min, same_family, leading, overlaps, overlaps_any, candidate, try_thirds,
  available_subnet, holds,
}

pow-add : (k d : ℕ) → 2 ^ (k + d) ≡ 2 ^ k * 2 ^ d
pow-add k zero = simp unary_clauses (omega arith)
pow-add k (suc d) =
    let e : k + suc d ≡ suc (k + d) = omega arith in
    rw (e, pow-suc 2 (k + d), pow-suc 2 d, pow-add k d) (grind arith)

-- Addresses that agree in b leading bits agree in fewer.
leading-le :
    (v : Bool) (b m x a : ℕ)
    → b ≤ width v
    → m ≤ b
    → leading v b x ≡ leading v b a
    → leading v m x ≡ leading v m a
unfolding leading
leading-le v b m x a w le h =
    let e : width v - m ≡ (width v - b) + (b - m) = omega arith in
    rw
      (
        e,
        pow-add (width v - b) (b - m),
        sym (div-div-eq-div-mul x (2 ^ (width v - b)) (2 ^ (b - m))),
        sym (div-div-eq-div-mul a (2 ^ (width v - b)) (2 ^ (b - m))),
      )
      (ap (λ y. y / 2 ^ (b - m)) h)

min-le : (a b : ℕ) → (min a b ≤ a) × (min a b ≤ b)
unfolding min
min-le a b = ground arith

reads :
    (p : Prefix) (m x : ℕ)
    → is_valid p ≡ true
    → p.is_v4 ≡ true
    → m ≤ p.bits
    → holds p x ≡ true
    → leading true m x ≡ leading true m p.address
unfolding is_valid holds
reads p m x v f le h =
    let w = rw f at v in
    let g = rw f at h in leading-le true p.bits m x p.address (ground arith) le (ground arith)

-- Two IPv4 prefixes that share an address overlap.
overlaps-shared :
    (p q : Prefix) (x : ℕ)
    → is_valid p ≡ true
    → is_valid q ≡ true
    → p.is_v4 ≡ true
    → q.is_v4 ≡ true
    → holds p x ≡ true
    → holds q x ≡ true
    → overlaps p q ≡ true
unfolding overlaps same_family
overlaps-shared p q x vp vq fp fq hp hq =
    let m = min-le p.bits q.bits in
    let e : leading true (min p.bits q.bits) p.address
        ≡ leading true (min p.bits q.bits) q.address =
      sym (reads p (min p.bits q.bits) x vp fp m.0 hp)
      ∙ reads q (min p.bits q.bits) x vq fq m.1 hq in
    rw (vp, vq, fp, fq) (ground arith)

overlaps_any-In :
    (c p : Prefix) (routes : List Prefix)
    → overlaps_any c routes ≡ false
    → In p routes
    → overlaps c p ≡ false
unfolding overlaps_any
overlaps_any-In c p [] h m = absurd m
overlaps_any-In c p (q ∷ routes) h (inl e) = subst (λ y. overlaps c y ≡ false) e (ground arith)
overlaps_any-In c p (q ∷ routes) h (inr m) = overlaps_any-In c p routes (ground arith) m

record IsFree (routes : List Prefix) (c : Prefix) : Type 0 where
  free : overlaps_any c routes ≡ false
  v4 : c.is_v4 ≡ true
  valid : is_valid c ≡ true

AllFree : List Prefix → Result Prefix → Type 0
AllFree routes r = (c : Prefix) → r ≡ ok c → IsFree routes c

err-AllFree : (routes : List Prefix) (f : Fault) → AllFree routes (err f)
unfolding AllFree
err-AllFree routes f c e = ground arith

try_thirds-AllFree :
    (left a b : ℕ) (routes : List Prefix) (next : Result Prefix)
    → AllFree routes next
    → AllFree routes (try_thirds left a b routes next)
unfolding try_thirds AllFree candidate is_valid width
try_thirds-AllFree zero a b routes next f c h = f c h
try_thirds-AllFree (suc left) a b routes next f c h =
    elim (Bool-cases (overlaps_any (candidate a b ((240 + (255 - left)) % 256)) routes)) [
      | inl e ↦ try_thirds-AllFree left a b routes next f c (rw e at h)
      | inr e ↦
          subst (IsFree routes) (ok-injective (rw e at h))
            (record { free = e; v4 = refl; valid = refl })
    ]

-- The subnet that availableSubnet suggests shares no address with any of the host's IPv4 routes.
pub available_subnet-disjoint :
    (routes : List Prefix) (c p : Prefix) (x : ℕ)
    → available_subnet routes ≡ ok c
    → In p routes
    → is_valid p ≡ true
    → p.is_v4 ≡ true
    → holds c x ≡ true
    → holds p x ≡ false
unfolding available_subnet AllFree
available_subnet-disjoint routes c p x h m v f hc =
    let third = try_thirds-AllFree 256 10 252 routes _ (err-AllFree routes _) in
    let second = try_thirds-AllFree 256 10 253 routes _ third in
    let z = try_thirds-AllFree 256 172 30 routes _ second c h in
    elim (Bool-cases (holds p x)) [
      | inr e ↦ e
      | inl e ↦
          let o = overlaps-shared c p x z.valid v z.v4 f hc e in
          let d = overlaps_any-In c p routes z.free m in absurd (ground arith)
    ]
