-- ===== src/Apply/Bounds.antt =====
-- How many threads dispatch_apply_f uses (src/apply.c).
use swift_corelibs_libdispat.Common.{
  ℕ, ◌*◌, ◌/◌, ◌^◌, ◌≤◌, ◌<◌, ◌≡◌, ◌≢◌, ◌⊎◌, inl, inr, refl, arith, Bool, true, false, ◌==◌,
  if◌then◌else◌, ltb, ℕ_discrete, dec_lt,
}
use swift_corelibs_libdispat.Apply.Outcome.{if_eq, if_lt}
use swift_corelibs_libdispat.Apply.Width.{
  apply_max, apply_threads, apply_nesting, apply_way, serially,
}
use native.Mathlib.Nat.{
  mul-div-le, div-le_self, div-lt_iff_lt-mul, mul-le-mul, mul-le-mul_left, mul-pos,
}

module _ (nested iterations parallelism : ℕ) (p : 0 < iterations) (q : iterations < 2 ^ 64)
    (r : 0 < parallelism) where
  -- A share of the threads for the call
  abbrev IsShare : ℕ → Type 0
  IsShare t = (0 < t) × (t ≤ parallelism) × ((t ≡ 1) ⊎ (nested * t ≤ parallelism))

  divided : 0 < nested → nested < parallelism → IsShare (parallelism / nested)
  divided n h =
      let up = mul-div-le parallelism nested in
      let some_left : 0 < parallelism / nested = elim (dec_lt 0 (parallelism / nested)) [
        | yes k ↦ k
        | no k ↦
            let none : parallelism / nested < 1 = omega arith in
            let small = (div-lt_iff_lt-mul n).0 none in omega arith
      ] in
      (some_left, div-le_self parallelism nested, inr up)

  share_lem : IsShare (
      if nested == 0
      then parallelism
      else (if ltb nested parallelism then parallelism / nested else 1))
  share_lem =
      if_eq IsShare nested 0 (λ z. (r, omega arith, inr (rw z (omega arith))))
        (λ n.
          if_lt IsShare nested parallelism (λ h. divided (omega arith) h)
            (λ h. (omega arith, omega arith, inl refl)))

  -- A share, or all iterations if these are fewer
  least :
      (t : ℕ)
      → IsShare t
      → (λ (k : ℕ). IsShare k × (k ≤ iterations)) (if ltb iterations t then iterations else t)
  least t (a, b, c) =
      if_lt (λ (k : ℕ). IsShare k × (k ≤ iterations)) iterations t
        (λ h. (
          (
            p,
            omega arith,
            elim c [
              | inl e ↦ absurd (omega arith)
              | inr e ↦
                  let le : iterations ≤ t = omega arith in
                  let less = mul-le-mul_left nested le in inr (omega (arith, less))
            ],
          ),
          omega arith,
        ))
        (λ h. ((a, b, c), omega arith))

  nesting_lem : (0 < apply_nesting nested iterations) × (apply_nesting nested iterations < 2 ^ 64)
  unfolding apply_nesting
  nesting_lem =
      if_eq (λ (n : ℕ). (0 < n) × (n < 2 ^ 64)) nested 0 (λ z. (p, q))
        (λ n. elim (dec_lt nested apply_max) [
          | no a ↦
              let e : ltb nested apply_max ≡ false = ground arith in rw e (omega arith, omega arith)
          | yes a ↦
              let e : ltb nested apply_max ≡ true = ground arith in
              elim (dec_lt iterations apply_max) [
                | no b ↦
                    let f : ltb iterations apply_max ≡ false = ground arith in
                    rw (e, f) (omega arith, omega arith)
                | yes b ↦
                    let f : ltb iterations apply_max ≡ true = ground arith in
                    let x : nested ≤ 2 ^ 16 = omega arith in
                    let y : iterations ≤ 2 ^ 16 = omega arith in
                    let few = mul-le-mul x y in
                    let some : 0 < nested = omega arith in
                    rw (e, f) (mul-pos some p, omega (arith, few))
              ]
        ])

-- dispatch_apply_f uses at least one thread, no more threads than there are iterations or than the
-- system runs at once, and in a nested call one thread only or so many that the outer iterations
-- together stay within that number. The nesting that it records is not 0 and fits a machine word.
apply_threads_bounds :
    (nested iterations parallelism : ℕ)
    → 0 < iterations
    → iterations < 2 ^ 64
    → 0 < parallelism
    → (0 < apply_threads nested iterations parallelism)
      × (apply_threads nested iterations parallelism ≤ iterations)
      × (apply_threads nested iterations parallelism ≤ parallelism)
      × ((apply_threads nested iterations parallelism ≡ 1)
          ⊎ (nested * apply_threads nested iterations parallelism ≤ parallelism))
      × (0 < apply_nesting nested iterations)
      × (apply_nesting nested iterations < 2 ^ 64)
unfolding apply_threads
apply_threads_bounds nested iterations parallelism p q r =
    let ((a, b, c), d) =
      least nested iterations parallelism p q r _ (share_lem nested iterations parallelism p q r) in
    let (e, f) = nesting_lem nested iterations parallelism p q r in (a, d, b, c, e, f)

-- Where dispatch_apply_f does not run serially, it has more than one thread, as `_dispatch_apply_f` asserts,
-- and the queue is not serial.
apply_way_threads :
    (width threads : ℕ) (has_target is_current : Bool)
    → apply_way width threads has_target is_current ≢ serially
    → (width ≢ 1) × (1 < threads)
unfolding apply_way
apply_way_threads width threads has_target is_current n = elim (ℕ_discrete width 1) [
  | yes e ↦ absurd (n (let t : (width == 1) ≡ true = ground arith in rw t refl))
  | no e ↦ elim (dec_lt threads 2) [
    | yes l ↦ absurd (
        n (
          let t : (width == 1) ≡ false = ground arith in
          let u : ltb threads 2 ≡ true = ground arith in rw (t, u) refl))
    | no l ↦ (e, omega arith)
  ]
]
