-- ===== src/Once/Places.antt =====
-- Where a call of `dispatch_once_f` (src/once.c) stands, and what that says about the word.
use swift_corelibs_libdispat.Common.{
  ℕ, ◌+◌, ◌/◌, ◌%◌, ◌^◌, ◌<◌, ◌≡◌, ◌⊎◌, inr, refl, arith, List, [], ◌∷◌, ◌++◌, map, total,
}
use swift_corelibs_libdispat.Common.Bits.{set_bit}
use swift_corelibs_libdispat.Once.{
  once_done, Pc, idle, entering, running, broadcasting, waiting, at_futex, asleep, returned, Call,
  woken, woken_pc, starts,
}

-- What the place of a call says about the word and the call's thread.
abbrev pub At : ℕ → ℕ → Pc → Type 0
At v self idle = Unit
At v self entering = Unit
At v self running = (v ≡ self) ⊎ (v ≡ self + 2 ^ 31)
At v self (broadcasting cur) = (v ≡ once_done) × (cur % 2 ^ 30 ≡ self)
At v self waiting = 0 < v
At v self (at_futex w) = (0 < v) × (w / 2 ^ 30 % 4 ≡ 2)
At v self asleep = v / 2 ^ 31 % 2 ≡ 1
At v self returned = v ≡ once_done

abbrev pub Fits : ℕ → Call → Type 0
Fits v c = (0 < c.self) × (c.self < 2 ^ 30) × At v c.self c.pc

abbrev pub AllFit : ℕ → List Call → Type 0
AllFit v [] = Unit
AllFit v (c ∷ cs) = Fits v c × AllFit v cs

abbrev pub runner : Call → ℕ
runner c = starts c.pc

-- A call that sleeps, and one that is to wake the sleepers.
abbrev pub sleeps : Pc → ℕ
sleeps asleep = 1
sleeps _ = 0

abbrev pub wakes_up : Pc → ℕ
wakes_up (broadcasting _) = 1
wakes_up _ = 0

abbrev pub sleeper : Call → ℕ
sleeper c = sleeps c.pc

abbrev pub waker : Call → ℕ
waker c = wakes_up c.pc

-- The gate is open, held with the function running once, or done.
abbrev pub Phase : ℕ → ℕ → ℕ → Type 0
Phase v n r =
    (v ≡ 0) × (n ≡ 0) × (r ≡ 0)
    ⊎ (0 < v % 2 ^ 30) × (v % 2 ^ 31 < 2 ^ 30) × (v < 2 ^ 32) × (n ≡ 1) × (r ≡ 1)
    ⊎ (v ≡ once_done) × (n ≡ 1) × (r ≡ 0)

pub AllFit-append-left : (v : ℕ) (xs ys : List Call) → AllFit v (xs ++ ys) → AllFit v xs
AllFit-append-left v [] ys a = tt
AllFit-append-left v (x ∷ xs) ys (f, a) = (f, AllFit-append-left v xs ys a)

pub AllFit-append-right : (v : ℕ) (xs ys : List Call) → AllFit v (xs ++ ys) → AllFit v ys
AllFit-append-right v [] ys a = a
AllFit-append-right v (x ∷ xs) ys (f, a) = AllFit-append-right v xs ys a

pub AllFit-append : (v : ℕ) (xs ys : List Call) → AllFit v xs → AllFit v ys → AllFit v (xs ++ ys)
AllFit-append v [] ys a b = b
AllFit-append v (x ∷ xs) ys (f, a) b = (f, AllFit-append v xs ys a b)

-- A change of the word that keeps what each call that does not run the function says of it.
pub AllFit-idle :
    (v w : ℕ)
    → ((c : Call) → Fits v c → runner c ≡ 0 → Fits w c)
    → (cs : List Call) → total runner cs ≡ 0
    → AllFit v cs
    → AllFit w cs
AllFit-idle v w k [] z a = tt
AllFit-idle v w k (c ∷ cs) z (f, a) = (k c f (omega arith), AllFit-idle v w k cs (omega arith) a)

pub AllFit-all :
    (v w : ℕ) → ((c : Call) → Fits v c → Fits w c) → (cs : List Call) → AllFit v cs → AllFit w cs
AllFit-all v w k [] a = tt
AllFit-all v w k (c ∷ cs) (f, a) = (k c f, AllFit-all v w k cs a)

pub At-enter : (v s : ℕ) (p : Pc) → 0 < s → At 0 s p → starts p ≡ 0 → At v s p
At-enter v s idle h a z = tt
At-enter v s entering h a z = tt
At-enter v s running h a z = absurd (omega arith)
At-enter v s (broadcasting cur) h a z = absurd (omega arith)
At-enter v s waiting h a z = absurd (omega arith)
At-enter v s (at_futex w) h a z = absurd (omega arith)
At-enter v s asleep h a z = absurd (omega arith)
At-enter v s returned h a z = absurd (omega arith)

pub At-done : (v s : ℕ) (p : Pc) → At v s p → starts p ≡ 0 → At once_done s p
At-done v s idle a z = tt
At-done v s entering a z = tt
At-done v s running a z = absurd (omega arith)
At-done v s (broadcasting cur) a z = (refl, a.1)
At-done v s waiting a z = omega arith
At-done v s (at_futex w) a z = (omega arith, a.1)
At-done v s asleep a z = refl
At-done v s returned a z = refl

-- A word with a holder.
abbrev pub IsHeld : ℕ → Type 0
IsHeld v = (0 < v % 2 ^ 30) × (v % 2 ^ 31 < 2 ^ 30) × (v < 2 ^ 32)

pub At-wait : (v s : ℕ) (p : Pc) → IsHeld v → s < 2 ^ 30 → At v s p → At (set_bit 31 v) s p
At-wait v s idle h r a = tt
At-wait v s entering h r a = tt
At-wait v s running h r a = inr (omega arith)
At-wait v s (broadcasting cur) h r a = absurd (omega arith)
At-wait v s waiting h r a = omega arith
At-wait v s (at_futex w) h r a = (omega arith, a.1)
At-wait v s asleep h r a = omega arith
At-wait v s returned h r a = absurd (omega arith)

At-woken : (v s : ℕ) (p : Pc) → At v s p → At v s (woken_pc p)
At-woken v s asleep a = omega arith
At-woken v s idle a = tt
At-woken v s entering a = tt
At-woken v s running a = a
At-woken v s (broadcasting cur) a = a
At-woken v s waiting a = a
At-woken v s (at_futex w) a = a
At-woken v s returned a = a

pub AllFit-woken : (v : ℕ) (cs : List Call) → AllFit v cs → AllFit v (map woken cs)
AllFit-woken v [] a = tt
AllFit-woken v (c ∷ cs) ((p, q, r), a) = ((p, q, At-woken v c.self c.pc r), AllFit-woken v cs a)

starts-woken : (p : Pc) → starts (woken_pc p) ≡ starts p
starts-woken asleep = refl
starts-woken p = refl

sleeps-woken : (p : Pc) → sleeps (woken_pc p) ≡ 0
sleeps-woken asleep = refl
sleeps-woken p = refl

pub total-woken :
    (cs : List Call)
    → (total runner (map woken cs) ≡ total runner cs) × (total sleeper (map woken cs) ≡ 0)
total-woken [] = (refl, refl)
total-woken (c ∷ cs) =
    let (a, b) = total-woken cs in
    (omega (arith, a, starts-woken c.pc), omega (arith, b, sleeps-woken c.pc))
