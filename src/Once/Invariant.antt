-- ===== src/Once/Invariant.antt =====
-- The invariant of `dispatch_once_f` (src/once.c): who holds the gate, and who has to be woken up.
use swift_corelibs_libdispat.Common.{
  ℕ, ◌+◌, ◌/◌, ◌%◌, ◌^◌, ◌<◌, ◌≡◌, ◌≢◌, ◌⊎◌, inl, inr, refl, sym, ap, subst, arith, List, [], ◌∷◌,
  ◌++◌, map, total, total_middle,
}
use swift_corelibs_libdispat.Once.{
  once_done, Pc, asleep, next, wake_all, step, Call, woken, starts, System, take, wake, AreNew,
  Reach, here, later,
}
use swift_corelibs_libdispat.Once.Places.{
  At, Fits, AllFit, runner, sleeps, sleeper, waker, Phase, AllFit-append-left, AllFit-append-right,
  AllFit-append, AllFit-woken, total-woken,
}
use swift_corelibs_libdispat.Once.Steps.{Outcome, step-Outcome}

pub record Inv (s : System) : Type 0 where
  pub phase : Phase s.word s.runs (total runner s.calls)
  pub fit : AllFit s.word s.calls
  pub wakes : (s.word ≢ once_done) ⊎ (total sleeper s.calls ≡ 0) ⊎ (0 < total waker s.calls)

no_sleeper : (v : ℕ) (cs : List Call) → AllFit v cs → v / 2 ^ 31 % 2 ≡ 0 → total sleeper cs ≡ 0
no_sleeper v [] a z = refl
no_sleeper v (c ∷ cs) (f, a) z = omega (arith, no_sleeper v cs a z, awake c.pc f.2)
  where
    awake : (p : Pc) → At v c.self p → sleeps p ≡ 0
    awake asleep h = absurd (omega arith)
    awake _ h = refl

same_Wakes :
    {v s b k m : ℕ}
    → s ≡ k
    → b ≡ m
    → (v ≢ once_done) ⊎ (s ≡ 0) ⊎ (0 < b)
    → (v ≢ once_done) ⊎ (k ≡ 0) ⊎ (0 < m)
same_Wakes e d (inl h) = inl h
same_Wakes e d (inr (inl h)) = inr (inl (omega arith))
same_Wakes e d (inr (inr h)) = inr (inr (omega arith))

module _ (before after : List Call) (v n self : ℕ) (p : Pc)
    (i : Inv (record {
      word = v;
      calls = before ++ record { self = self; pc = p } ∷ after;
      runs = n;
    })) where
  here_call : Call
  here_call = record { self = self; pc = p }

  abbrev others_of : (Call → ℕ) → ℕ
  others_of f = total f before + total f after

  left : AllFit v before
  left = AllFit-append-left v before _ i.fit

  right : Fits v (record { self = self; pc = p }) × AllFit v after
  right = AllFit-append-right v before _ i.fit

  step-Next :
      Outcome v n self (others_of runner) (others_of sleeper) (others_of waker) (step self v p)
  step-Next =
      let a = total_middle runner before after (record { self = self; pc = p }) in
      let b = total_middle sleeper before after (record { self = self; pc = p }) in
      let c = total_middle waker before after (record { self = self; pc = p }) in
      let (f, g) = right in
      step-Outcome v n self (others_of runner) (others_of sleeper) (others_of waker) p f.0 f.1
        (subst (λ (k : ℕ). Phase v n k) a i.phase) f.2
        (λ z. omega (arith, no_sleeper v before left z, no_sleeper v after g z))
        (same_Wakes b c i.wakes)

  take-Inv :
      {v' : ℕ} {p' : Pc}
      → step self v p ≡ next v' p'
      → Inv (record {
        word = v';
        calls = before ++ record { self = self; pc = p' } ∷ after;
        runs = n + starts p';
      })
  take-Inv {v'} {p'} e =
      let c =
        subst (Outcome v n self (others_of runner) (others_of sleeper) (others_of waker)) e
          step-Next in
      let (f, g) = right in
      record {
        phase =
            subst (λ (k : ℕ). Phase v' (n + starts p') k)
              (sym (total_middle runner before after (record { self = self; pc = p' }))) c.phase;
        fit =
            AllFit-append v' before _ (c.others before (omega arith) left)
              ((f.0, f.1, c.at), c.others after (omega arith) g);
        wakes =
            let me : Call = record { self = self; pc = p' } in
            same_Wakes (sym (total_middle sleeper before after me))
              (sym (total_middle waker before after me)) c.wakes;
      }

  wake-Inv :
      {p' : Pc}
      → step self v p ≡ wake_all p'
      → Inv (record {
        word = v;
        calls = map woken before ++ record { self = self; pc = p' } ∷ map woken after;
        runs = n;
      })
  wake-Inv {p'} e =
      let c =
        subst (Outcome v n self (others_of runner) (others_of sleeper) (others_of waker)) e
          step-Next in
      let (f, g) = right in
      let (a1, a2) = total-woken before in
      let (b1, b2) = total-woken after in
      let me : Call = record { self = self; pc = p' } in
      let same : others_of runner + starts p'
          ≡ total runner (map woken before ++ me ∷ map woken after) =
        omega (arith, total_middle runner (map woken before) (map woken after) me, a1, b1) in
      record {
        phase = subst (λ (k : ℕ). Phase v n k) same c.phase;
        fit =
            AllFit-append v (map woken before) _ (AllFit-woken v before left)
              ((f.0, f.1, c.at), AllFit-woken v after g);
        wakes = inr (
            inl (
              omega (
                arith,
                total_middle sleeper (map woken before) (map woken after) me,
                a2,
                b2,
                c.awake,
              )));
      }

AreNew-AllFit :
    (cs : List Call) → AreNew cs → AllFit 0 cs × (total runner cs ≡ 0) × (total sleeper cs ≡ 0)
AreNew-AllFit [] a = (tt, refl, refl)
AreNew-AllFit (c ∷ cs) (p, q, e, a) =
    let (f, r, s) = AreNew-AllFit cs a in
    let fresh : Fits 0 c =
      subst (λ (x : Pc). (0 < c.self) × (c.self < 2 ^ 30) × At 0 c.self x) (sym e) (p, q, tt) in
    ((fresh, f), omega (arith, r, ap starts e), omega (arith, s, ap sleeps e))

-- Every state that is reached has the invariant.
pub Reach-Inv : {s : System} → Reach s → Inv s
Reach-Inv (here calls a) =
    let (f, r, s) = AreNew-AllFit calls a in
    record { phase = inl (refl, refl, r); fit = f; wakes = inr (inl s) }
Reach-Inv (later {before} {after} {v} {n} {self} {p} r (take e)) =
    take-Inv before after v n self p (Reach-Inv r) e
Reach-Inv (later {before} {after} {v} {n} {self} {p} r (wake e)) =
    wake-Inv before after v n self p (Reach-Inv r) e
