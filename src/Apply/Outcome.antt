-- ===== src/Apply/Outcome.antt =====
-- What holds after each outcome of a step of dispatch_apply's threads (src/apply.c).
use swift_corelibs_libdispat.Common.{
  ℕ, ◌<◌, ◌≡◌, ◌≢◌, arith, true, false, ◌==◌, if◌then◌else◌, ltb, ℕ_discrete, dec_lt,
}
use swift_corelibs_libdispat.Apply.{
  Shared, Pc, Next, next, wake, corrupt, assertion_failed, blocked,
}

-- `P` holds of what is left, or `R` where the step wakes the sleeper, and `F` where it fails.
abbrev pub Outcome : (P R : Shared → Pc → Type 0) → Type 0 → Next → Type 0
Outcome P R F (next m p) = P m p
Outcome P R F (wake m p) = R m p
Outcome P R F corrupt = F
Outcome P R F assertion_failed = F
Outcome P R F blocked = Unit

pub if_eq :
    {A : Type 0} (Q : A → Type 0) {x y : A} (a b : ℕ)
    → (a ≡ b → Q x)
    → (a ≢ b → Q y)
    → Q (if a == b then x else y)
if_eq Q a b f g = elim (ℕ_discrete a b) [
  | yes e ↦ let t : (a == b) ≡ true = ground arith in rw t (f e)
  | no e ↦ let t : (a == b) ≡ false = ground arith in rw t (g e)
]

pub if_lt :
    {A : Type 0} (Q : A → Type 0) {x y : A} (a b : ℕ)
    → (a < b → Q x)
    → ((a < b → ⊥) → Q y)
    → Q (if ltb a b then x else y)
if_lt Q a b f g = elim (dec_lt a b) [
  | yes e ↦ let t : ltb a b ≡ true = ground arith in rw t (f e)
  | no e ↦ let t : ltb a b ≡ false = ground arith in rw t (g e)
]
