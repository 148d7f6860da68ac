-- ===== src/Apply/Restore.antt =====
-- `_dispatch_apply_redirect` (src/apply.c) gives back the width that it takes.
use swift_corelibs_libdispat.Common.{
  ℕ, ◌+◌, ◌-◌, ◌*◌, ◌/◌, ◌%◌, ◌^◌, ◌≤◌, ◌<◌, ◌≡◌, refl, ap, ◌∙◌, arith, true, false, ◌==◌, List, [],
  ◌∷◌, ℕ_discrete, subst,
}
use swift_corelibs_libdispat.Common.Bits.{field}
use swift_corelibs_libdispat.QueueState.{dq_state_available_width, width_interval}
use swift_corelibs_libdispat.Apply.Outcome.{if_eq, if_lt}
use swift_corelibs_libdispat.Apply.Width.{
  Queue, try_reserve_apply_width, relinquish, relinquish_width, Redirect, alone, with_width,
  rev_onto, redirect,
}

-- The queue has `n` of its width reserved, and nothing else has changed.
abbrev pub Reserved : ℕ → Queue → Queue → Type 0
Reserved n q r =
    (r.dq_state ≡ q.dq_state + n * width_interval)
    × (r.dq_width ≡ q.dq_width)
    × (r.dq_state < 2 ^ 64)

abbrev pub AllReserved : ℕ → List Queue → List Queue → Type 0
AllReserved n [] [] = Unit
AllReserved n (q ∷ qs) (r ∷ rs) = Reserved n q r × AllReserved n qs rs
AllReserved n _ _ = ⊥

abbrev pub AllStates : List Queue → Type 0
AllStates [] = Unit
AllStates (q ∷ qs) = (q.dq_state < 2 ^ 64) × AllStates qs

-- There is room in the word for the width that is available.
available_room :
    (s w : ℕ) → s < 2 ^ 64 → w ≤ dq_state_available_width s → s + w * width_interval < 2 ^ 64
available_room s w h l = elim (ℕ_discrete (s / 2 ^ 53 % 2) 1) [
  | yes e ↦
      let t : (s / 2 ^ 53 % 2 == 1) ≡ true = ground arith in
      let none_left : dq_state_available_width s ≡ 0 = rw t refl in omega arith
  | no e ↦
      let t : (s / 2 ^ 53 % 2 == 1) ≡ false = ground arith in
      let left : dq_state_available_width s ≡ 0x1000 - field 41 13 s = rw t refl in omega arith
]

module _ (q : Queue) (da_width : ℕ) (h : q.dq_state < 2 ^ 64) where
  -- What the reservation does
  abbrev Reserves : Queue × ℕ → Type 0
  Reserves (r, n) = (n ≤ da_width) × Reserved n q r

  try_reserve_lem : Reserves (try_reserve_apply_width q da_width)
  unfolding try_reserve_apply_width
  try_reserve_lem =
      if_eq Reserves q.dq_width 1 (λ e. nothing)
        (λ e.
          if_eq Reserves (dq_state_available_width q.dq_state) 0 (λ z. nothing)
            (λ z.
              if_lt taken da_width (dq_state_available_width q.dq_state)
                (λ l. takes da_width (omega arith) (omega arith))
                (λ l.
                  takes (dq_state_available_width q.dq_state) (omega (arith, l)) (omega arith))))
    where
      nothing : Reserves (q, 0)
      nothing = (omega arith, (omega arith, refl, h))

      taken : ℕ → Type 0
      taken n = Reserves (record q { dq_state = (q.dq_state + n * width_interval) % 2 ^ 64 }, n)

      takes : (n : ℕ) → n ≤ da_width → n ≤ dq_state_available_width q.dq_state → taken n
      takes n a b =
          let room = available_room q.dq_state n h b in (a, (omega arith, refl, omega arith))

Reserved-relinquish :
    (n k : ℕ) (q r : Queue) → k ≤ n → Reserved n q r → Reserved (n - k) q (relinquish k r)
Reserved-relinquish n k q r l (a, b, c) = (omega arith, b, omega arith)

AllReserved-relinquish_width :
    (n k : ℕ) (qs rs : List Queue)
    → k ≤ n
    → AllReserved n qs rs
    → AllReserved (n - k) qs (relinquish_width k rs)
AllReserved-relinquish_width n k [] [] l a = tt
AllReserved-relinquish_width n k (q ∷ qs) (r ∷ rs) l (a, b) =
    (Reserved-relinquish n k q r l a, AllReserved-relinquish_width n k qs rs l b)
AllReserved-relinquish_width n k [] (r ∷ rs) l a = elim a [ ]
AllReserved-relinquish_width n k (q ∷ qs) [] l a = elim a [ ]

AllReserved-rev_onto :
    (n : ℕ) (xs bs qs rs : List Queue)
    → AllReserved n xs bs
    → AllReserved n qs rs
    → AllReserved n (rev_onto xs qs) (rev_onto bs rs)
AllReserved-rev_onto n [] [] qs rs a b = b
AllReserved-rev_onto n (q ∷ xs) (r ∷ bs) qs rs (a, c) b =
    AllReserved-rev_onto n xs bs (q ∷ qs) (r ∷ rs) c (a, b)
AllReserved-rev_onto n [] (r ∷ bs) qs rs a b = elim a [ ]
AllReserved-rev_onto n (q ∷ xs) [] qs rs a b = elim a [ ]

-- With nothing reserved the queues are as they were.
restored : (qs rs : List Queue) → AllReserved 0 qs rs → rs ≡ qs
restored [] [] a = refl
restored (q ∷ qs) (r ∷ rs) ((a, b, c), d) =
    let e : r.dq_state ≡ q.dq_state = omega arith in
    ap (λ (x : ℕ). record { dq_state = x; dq_width = r.dq_width } ∷ rs) e
    ∙ ap (λ (x : ℕ). record { dq_state = q.dq_state; dq_width = x } ∷ rs) b
    ∙ ap (λ (xs : List Queue). q ∷ xs) (restored qs rs d)
restored [] (r ∷ rs) a = elim a [ ]
restored (q ∷ qs) [] a = elim a [ ]

unreserved : (qs : List Queue) → AllStates qs → AllReserved 0 qs qs
unreserved [] a = tt
unreserved (q ∷ qs) (h, a) = ((omega arith, refl, h), unreserved qs a)

-- What the loop promises of the queues `qs`: serially, all of them are as they were; else each of them has
-- the width reserved that is left, and relinquishing it gives them back.
abbrev pub Restores : List Queue → ℕ → Redirect → Type 0
Restores qs da_width (alone rs) = rs ≡ qs
Restores qs da_width (with_width rs n) =
    (0 < n) × (n ≤ da_width) × AllReserved n qs rs × (relinquish_width n rs ≡ qs)

Restores-le : (qs : List Queue) (n k : ℕ) (x : Redirect) → k ≤ n → Restores qs k x → Restores qs n x
Restores-le qs n k (alone rs) l a = a
Restores-le qs n k (with_width rs j) l (a, b, c, d) = (a, omega arith, c, d)

redirect_loop :
    (before seen qs : List Queue) (da_width : ℕ)
    → 0 < da_width
    → AllReserved da_width before seen
    → AllStates qs
    → Restores (rev_onto before qs) da_width (redirect seen qs da_width)
unfolding redirect
redirect_loop before seen [] n p a h =
    let b = AllReserved-rev_onto n before seen [] [] a tt in
    let gone =
      AllReserved-relinquish_width n n (rev_onto before []) (rev_onto seen []) (omega arith) b in
    let zero_left : n - n ≡ 0 = omega arith in
    (
      p,
      omega arith,
      b,
      restored (rev_onto before []) (relinquish_width n (rev_onto seen [])) (
          subst
            (λ (k : ℕ). AllReserved k (rev_onto before []) (relinquish_width n (rev_onto seen [])))
            zero_left gone),
    )
redirect_loop before seen (q ∷ qs) n p a (h, hs) =
    let (r, w) = try_reserve_apply_width q n in
    let (l, reserved) = try_reserve_lem q n h in
    let back = AllReserved-relinquish_width n (n - w) before seen (omega arith) a in
    let same : n - (n - w) ≡ w = omega arith in
    let seen_w =
      subst (λ (k : ℕ). AllReserved k before (relinquish_width (n - w) seen)) same back in
    if_lt (Restores (rev_onto before (q ∷ qs)) n) w n
      (λ less.
        if_eq (Restores (rev_onto before (q ∷ qs)) n) w 0
          (λ z.
            restored (rev_onto before (q ∷ qs)) (rev_onto (relinquish_width (n - w) seen) (r ∷ qs))
              (AllReserved-rev_onto 0 before (relinquish_width (n - w) seen) (q ∷ qs) (r ∷ qs)
                (subst (λ (k : ℕ). AllReserved k before (relinquish_width (n - w) seen)) z seen_w)
                (subst (λ (k : ℕ). Reserved k q r) z reserved, unreserved qs hs)))
          (λ z. Restores-le (rev_onto before (q ∷ qs)) n w _ l (
            redirect_loop (q ∷ before) (r ∷ relinquish_width (n - w) seen) qs w (omega arith)
              (reserved, seen_w) hs)))
      (λ all.
        let full : w ≡ n = omega (arith, all) in
        redirect_loop (q ∷ before) (r ∷ seen) qs n p
          (subst (λ (k : ℕ). Reserved k q r) full reserved, a) hs)

-- When `_dispatch_apply_redirect` runs serially, it has left every queue as it was. Else each of the queues
-- up to the root has the width of the additional threads reserved, at least one and no more than were
-- asked for, and relinquishing it after the run gives every queue its state back.
pub redirect-Restores :
    (qs : List Queue) (da_width : ℕ)
    → 0 < da_width
    → AllStates qs
    → Restores qs da_width (redirect [] qs da_width)
redirect-Restores qs da_width p h = redirect_loop [] [] qs da_width p tt h
