-- ===== src/Doctor/Summary.antt =====
-- The last line of `doctor` against its checks.
use myminivault.Prelude.{◌≡◌, ◌↔◌, List, [], ◌∷◌, arith, All, any, ltb, refl, true}
use myminivault.Doctor.{
  Check, is_fail, all_right, failures, warnings, verdict, healthy, attention_required,
}

counted :
    (checks : List Check)
    → failures checks ≡ 0
    → warnings checks ≡ 0
    → All (λ c. c.status ≡ all_right) checks
unfolding failures warnings
counted [] f w = tt
counted (c ∷ checks) f w = (ground arith, counted checks (ground arith) (ground arith))

none_counted :
    (checks : List Check)
    → All (λ c. c.status ≡ all_right) checks
    → (failures checks ≡ 0) × (warnings checks ≡ 0)
unfolding failures warnings
none_counted [] a = (refl, refl)
none_counted (c ∷ checks) (here, later) =
    let (f, w) = none_counted checks later in (ground arith, ground arith)

some_failure :
    (checks : List Check)
    → (ltb 0 (failures checks) ≡ true) ↔ (any (λ c. is_fail c.status) checks ≡ true)
unfolding failures
some_failure [] = ground arith
some_failure (c ∷ checks) = ground (arith, some_failure checks)

-- The last line says healthy exactly if every check is all right, and asks for attention exactly if one
-- failed.
pub verdict-healthy :
    (checks : List Check)
    → ((verdict checks ≡ healthy) ↔ All (λ c. c.status ≡ all_right) checks)
      × ((verdict checks ≡ attention_required) ↔ (any (λ c. is_fail c.status) checks ≡ true))
unfolding verdict
verdict-healthy checks = (
  (
    λ h. counted checks (ground arith) (ground arith),
    λ a. let (f, w) = none_counted checks a in ground arith,
  ),
  ground (arith, some_failure checks),
)
