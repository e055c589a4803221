-- ===== src/Host/Subnet.antt =====
-- internal/host/suggest.go: `availableSubnet`, with what net/netip says of overlapping prefixes.
use runner_loom.Base.{
  ℕ, zero, suc, ◌+◌, ◌-◌, ◌*◌, ◌/◌, ◌%◌, ◌^◌, ◌==◌, Bool, true, false, not, ◌&&◌, ◌||◌, List, [],
  ◌∷◌, leb, Result, ok, err, plain, if◌then◌else◌,
}

-- `netip.Prefix`: the address as a number, and the number of leading bits.
pub record Prefix : Type 0 where
  pub is_v4 : Bool
  pub address : ℕ
  pub bits : ℕ

unfoldable pub width : Bool → ℕ
width true = 32
width false = 128

unfoldable pub is_valid : Prefix → Bool
unfolding width
is_valid p = leb p.bits (width p.is_v4)

unfoldable pub min : ℕ → ℕ → ℕ
min a b = if leb a b then a else b

unfoldable pub same_family : Bool → Bool → Bool
same_family true b = b
same_family false b = not b

-- The leading bits of an address, as a number.
unfoldable pub leading : Bool → ℕ → ℕ → ℕ
unfolding width
leading is_v4 bits address = address / 2 ^ (width is_v4 - bits)

-- `Prefix.Overlaps`.
unfoldable pub overlaps : Prefix → Prefix → Bool
unfolding is_valid min same_family leading
overlaps p q =
    is_valid p
    && is_valid q
    && same_family p.is_v4 q.is_v4
    && (min p.bits q.bits == 0
        || leading p.is_v4 (min p.bits q.bits) p.address
          == leading p.is_v4 (min p.bits q.bits) q.address)

unfoldable pub overlaps_any : Prefix → List Prefix → Bool
unfolding overlaps
overlaps_any candidate [] = false
overlaps_any candidate (p ∷ routes) = overlaps candidate p || overlaps_any candidate routes

-- `a.b.c.0/24`.
unfoldable pub candidate : ℕ → ℕ → ℕ → Prefix
candidate a b c = record { is_v4 = true; address = a * 16777216 + b * 65536 + c * 256; bits = 24 }

-- The third parts 240 to 255 and then 0 to 239: `left` of the 256 are still to be tried.
unfoldable pub try_thirds : ℕ → ℕ → ℕ → List Prefix → Result Prefix → Result Prefix
unfolding candidate overlaps_any
try_thirds zero a b routes next = next
try_thirds (suc left) a b routes next =
    let rest = try_thirds left a b routes next in
    if overlaps_any (candidate a b ((240 + (255 - left)) % 256)) routes
    then rest
    else ok (candidate a b ((240 + (255 - left)) % 256))

-- `availableSubnet`.
unfoldable pub available_subnet : List Prefix → Result Prefix
unfolding try_thirds
available_subnet routes = try_thirds 256 172 30 routes (
    try_thirds 256 10 253 routes (
      try_thirds 256 10 252 routes (
        err (
          plain
            "no conflict-free candidate; select a private /24 with the network administrator"))))

-- The address lies in the prefix.
unfoldable pub holds : Prefix → ℕ → Bool
unfolding leading
holds p x = leading p.is_v4 p.bits x == leading p.is_v4 p.bits p.address
