-- ===== src/Config/Groups/Tests.antt =====
-- The groups of src/config.rs at concrete graphs.
use zc.Prelude.{
  ℕ, zero, suc, ◌-◌, ◌<◌, ◌≤◌, ◌≡◌, refl, some, List, [], ◌∷◌, length, arith, err, get_or,
}
use zc.Config.Groups.{cycle, check_groups, resolve_proxy, members}
use zc.Config.Groups.Settles.{InBounds}
use zc.Config.Groups.Accepted.{ResolvesSpec, check_groups-ResolvesSpec}

-- Three proxies; group 3 has proxy 2 and group 4, and group 4 has proxies 0 and 1.
abbrev nested : List (List ℕ)
nested = (2 ∷ 4 ∷ []) ∷ (0 ∷ 1 ∷ []) ∷ []

refuses_a_cycle : check_groups 2 ((0 ∷ 3 ∷ []) ∷ (1 ∷ 2 ∷ []) ∷ []) ≡ err cycle
unfolding check_groups
refuses_a_cycle = refl

abbrev picked : List ℕ
picked = 1 ∷ 1 ∷ []

selected_member : (n : ℕ) → 3 ≤ n → n < 5 → get_or picked (n - 3) 0 < length (members 3 nested n)
unfolding members
selected_member (suc (suc (suc zero))) lo hi = omega arith
selected_member (suc (suc (suc (suc zero)))) lo hi = omega arith
selected_member zero lo hi = absurd (omega (arith, lo))
selected_member (suc zero) lo hi = absurd (omega (arith, lo))
selected_member (suc (suc zero)) lo hi = absurd (omega (arith, lo))
selected_member (suc (suc (suc (suc (suc n))))) lo hi = absurd (omega (arith, hi))

picked-InBounds : InBounds 3 nested picked
picked-InBounds = record { member = selected_member }

check_groups-ResolvesSpec_example : ResolvesSpec 3 nested picked 3 (check_groups 3 nested)
check_groups-ResolvesSpec_example =
    check_groups-ResolvesSpec 3 nested picked 3 picked-InBounds (omega arith)

follows_the_selections : resolve_proxy 3 nested picked 3 ≡ some 1
unfolding resolve_proxy
follows_the_selections = refl
