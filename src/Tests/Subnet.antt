-- ===== src/Tests/Subnet.antt =====
-- A subnet beside the host's routes.
use runner_loom.Base.{true, false, List, [], ◌∷◌, ◌≡◌, refl, inl, inr, ok}
use runner_loom.Host.Subnet.{
  Prefix, available_subnet, try_thirds, overlaps_any, overlaps, candidate, holds, is_valid, width,
}
use runner_loom.Host.Disjoint.{available_subnet-disjoint}

-- 192.168.0.0/16 and 172.30.240.0/20.
abbrev home_route : Prefix
home_route = record { is_v4 = true; address = 3232235520; bits = 16 }

abbrev busy_route : Prefix
busy_route = record { is_v4 = true; address = 2887708672; bits = 20 }

abbrev routes : List Prefix
routes = home_route ∷ busy_route ∷ []

-- The third parts 240 to 255 are taken; 0 is the next one.
free_eq : available_subnet routes ≡ ok (candidate 172 30 0)
unfolding available_subnet try_thirds overlaps_any overlaps candidate
free_eq = refl

available_subnet-disjoint_example : holds busy_route 2887647237 ≡ false
unfolding candidate holds is_valid width
available_subnet-disjoint_example =
    available_subnet-disjoint routes (candidate 172 30 0) busy_route 2887647237 free_eq
      (inr (inl refl)) refl refl refl
