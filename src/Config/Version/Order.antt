-- ===== src/Config/Version/Order.antt =====
-- The comparisons of internal/config/version.go against the lexicographic order.
use cel_service.Base.Int.{ℤ, eqb_ℤ_iff, pos_part, neg_part}
use cel_service.Base.Text.{str_eq_iff}
use cel_service.Base.{◌≡◌, ◌↔◌, ◌⊎◌, arith, true, false, ◌<◌, ◌+◌}
use cel_service.Config.Version.{Version, is_greater_than, is_smaller_than, is_equal}

abbrev pub ◌<ℤ◌ : ℤ → ℤ → Type 0
◌<ℤ◌ a b = pos_part a + neg_part b < pos_part b + neg_part a

infix 50 ◌<ℤ◌
-- The lexicographic order on the three numbers; the special part does not count.
abbrev pub Precedes : Version → Version → Type 0
Precedes v o =
    (v.major <ℤ o.major)
    ⊎ ((v.major ≡ o.major) × (v.minor <ℤ o.minor))
    ⊎ ((v.major ≡ o.major) × (v.minor ≡ o.minor) × (v.patch <ℤ o.patch))

abbrev pub SameNumbers : Version → Version → Type 0
SameNumbers v o = (v.major ≡ o.major) × (v.minor ≡ o.minor) × (v.patch ≡ o.patch)

<ℤ_trans : (a b c : ℤ) → a <ℤ b → b <ℤ c → a <ℤ c
<ℤ_trans a b c h k = omega arith

is_smaller_than_iff : (v o : Version) → (is_smaller_than v o ≡ true) ↔ Precedes v o
unfolding is_smaller_than
is_smaller_than_iff v o = ground arith

is_greater_than_iff : (v o : Version) → (is_greater_than v o ≡ true) ↔ Precedes o v
unfolding is_greater_than
is_greater_than_iff v o = ground arith

is_equal_iff : (v o : Version) → (is_equal v o ≡ true) ↔ (v ≡ o)
unfolding is_equal
is_equal_iff v o = ground (
  arith,
  str_eq_iff v.special o.special,
  eqb_ℤ_iff v.major o.major,
  eqb_ℤ_iff v.minor o.minor,
  eqb_ℤ_iff v.patch o.patch,
)

-- `IsSmallerThan` and `IsGreaterThan` decide the lexicographic order of the three numbers and its
-- converse, and `IsEqual` decides equality, the special part included.
pub comparisons_iff :
    (v o : Version)
    → ((is_smaller_than v o ≡ true) ↔ Precedes v o)
      × ((is_greater_than v o ≡ true) ↔ Precedes o v)
      × ((is_equal v o ≡ true) ↔ (v ≡ o))
comparisons_iff v o = (is_smaller_than_iff v o, is_greater_than_iff v o, is_equal_iff v o)

Precedes-trans : (u v w : Version) → Precedes u v → Precedes v w → Precedes u w
Precedes-trans u v w h k = ground arith

-- `IsSmallerThan` is transitive.
pub is_smaller_than_trans :
    (u v w : Version)
    → is_smaller_than u v ≡ true
    → is_smaller_than v w ≡ true
    → is_smaller_than u w ≡ true
is_smaller_than_trans u v w h k =
    (is_smaller_than_iff u w).1
      (Precedes-trans u v w ((is_smaller_than_iff u v).0 h) ((is_smaller_than_iff v w).0 k))

-- Of any two versions either one is smaller and the other greater, or neither and all three
-- numbers are the same.
is_smaller_than_cases :
    (v o : Version)
    → ((is_smaller_than v o ≡ true) × (is_greater_than v o ≡ false) × (is_smaller_than o v ≡ false))
      ⊎ ((is_smaller_than v o ≡ false)
          × (is_greater_than v o ≡ true)
          × (is_smaller_than o v ≡ true))
      ⊎ ((is_smaller_than v o ≡ false) × (is_greater_than v o ≡ false) × SameNumbers v o)
unfolding is_smaller_than is_greater_than
is_smaller_than_cases v o = ground arith
