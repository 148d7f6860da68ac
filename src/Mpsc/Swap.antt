-- ===== src/Mpsc/Swap.antt =====
-- The exchange of the tail by a producer keeps the invariant of the os_mpsc queue
-- (os_mpsc_push_update_tail of src/inline_internal.h).
use swift_corelibs_libdispat.Common.{
  ℕ, ◌+◌, ◌-◌, ◌≤◌, ◌<◌, ◌≡◌, ◌≢◌, ◌⊎◌, inl, inr, refl, sym, ap, ◌∙◌, arith, true, false, ◌==◌,
  ℕ_discrete, subst,
}
use swift_corelibs_libdispat.Mpsc.{
  Producer, idle, swapping, linking, Consumer, resting, getting, popping, storing, emptying,
  awaiting_next, storing_next, System, push_swap,
}
use swift_corelibs_libdispat.Mpsc.Invariant.{
  AtRest, ProducerOk, HeadOk, ConsumerOk, Inv, put-at, put-else,
}

module _ (p item : ℕ) (s : System) (e : s.producers p ≡ swapping item) (v : Inv s) where
  claimed : ProducerOk s p (swapping item)
  claimed = subst (ProducerOk s p) e (v.producers p)

  pushed_old : (i : ℕ) → i < s.pushes → (push_swap p item s).pushed i ≡ s.pushed i
  unfolding push_swap
  pushed_old i h = let t : (i == s.pushes) ≡ false = ground arith in rw t refl

  pushed_new : (i : ℕ) → i ≡ s.pushes → (push_swap p item s).pushed i ≡ item
  unfolding push_swap
  pushed_new i h = let t : (i == s.pushes) ≡ true = ground arith in rw t refl

  pusher_old : (i : ℕ) → i < s.pushes → (push_swap p item s).pusher i ≡ s.pusher i
  unfolding push_swap
  pusher_old i h = let t : (i == s.pushes) ≡ false = ground arith in rw t refl

  pusher_new : (i : ℕ) → i ≡ s.pushes → (push_swap p item s).pusher i ≡ p
  unfolding push_swap
  pusher_new i h = let t : (i == s.pushes) ≡ true = ground arith in rw t refl

  swap_linking :
      (q prev other n : ℕ)
      → s.producers q ≡ linking prev other n
      → (push_swap p item s).producers q ≡ linking prev other n
  unfolding push_swap
  swap_linking q prev other n l = elim (ℕ_discrete q p) [
    | yes same ↦ cc
    | no other_one ↦ put-else p q (linking s.memory.tail item s.pushes) s.producers other_one ∙ l
  ]

  -- The producer of a queued item has the link that it had.
  swap_linking-at :
      (prev n : ℕ)
      → n < s.pushes
      → s.producers (s.pusher n) ≡ linking prev (s.pushed n) n
      → (push_swap p item s).producers ((push_swap p item s).pusher n)
        ≡ linking prev ((push_swap p item s).pushed n) n
  swap_linking-at prev n h l =
      let x = swap_linking (s.pusher n) prev (s.pushed n) n l in
      ap (push_swap p item s).producers (pusher_old n h)
      ∙ x
      ∙ ap (λ (a : ℕ). linking prev a n) (sym (pushed_old n h))

  swap-AtRest : s.pops ≡ s.pushes → (s.memory.head ≡ 0) × AtRest s.consumer
  swap-AtRest z = rest s.consumer v.consumer
    where
      rest : (c : Consumer) → ConsumerOk s c → (s.memory.head ≡ 0) × AtRest c
      rest resting (inl (h, x)) = (h, tt)
      rest resting (inr (h, x)) = absurd (omega arith)
      rest getting (h, x) = absurd (omega arith)
      rest (popping held) o = absurd (omega (arith, o.0))
      rest (storing held found) o = absurd (omega (arith, o.0))
      rest (emptying held) o = absurd (omega (arith, o.0))
      rest (awaiting_next held) o = absurd (omega (arith, o.0))
      rest (storing_next held found) o = absurd (omega (arith, o.0))

  swap-Producer :
      (q : ℕ) (a : Producer)
      → q ≢ p
      → s.producers q ≡ a
      → ProducerOk s q a
      → ProducerOk (push_swap p item s) q a
  unfolding push_swap
  swap-Producer q idle n w o = tt
  swap-Producer q (swapping other) n w (x, y, z) = (
    x,
    y,
    λ i a b. elim (ℕ_discrete i s.pushes) [
      | yes k ↦ rw (pushed_new i k) (v.claims p q item other e w (λ g. n (sym g)))
      | no k ↦ rw (pushed_old i (omega arith)) (z i a (omega arith))
    ],
  )
  swap-Producer q (linking prev other number) n w (a, b, c, d, inl x) =
      (a, omega arith, c ∙ sym (pushed_old number b), pusher_old number b ∙ d, inl x)
  swap-Producer q (linking prev other number) n w (a, b, c, d, inr (x, y, z)) = (
    a,
    omega arith,
    c ∙ sym (pushed_old number b),
    pusher_old number b ∙ d,
    inr (x, y ∙ sym (pushed_old (number - 1) (omega arith)), z),
  )

  swap-producers : (q : ℕ) → ProducerOk (push_swap p item s) q ((push_swap p item s).producers q)
  unfolding push_swap
  swap-producers q = elim (ℕ_discrete q p) [
    | no n ↦
        rw (put-else p q (linking s.memory.tail item s.pushes) s.producers n)
          (swap-Producer q (s.producers q) n refl (v.producers q))
    | yes same ↦ rw (put-at p q (linking s.memory.tail item s.pushes) s.producers same) (
      v.counts,
      omega arith,
      sym (pushed_new s.pushes refl),
      pusher_new s.pushes refl ∙ sym same,
      first_or_next,
    )
  ]
    where
      first_or_next :
          (s.memory.tail ≡ 0) × (s.pushes ≡ s.pops) × (s.memory.head ≡ 0) × AtRest s.consumer
          ⊎ (s.pops < s.pushes)
            × (s.memory.tail ≡ (push_swap p item s).pushed (s.pushes - 1))
            × (s.memory.next s.memory.tail ≡ 0)
      first_or_next = elim (ℕ_discrete s.pops s.pushes) [
        | yes z ↦ let (h, r) = swap-AtRest z in inl (v.tail_null z, sym z, h, r)
        | no z ↦
            let some_queued : s.pops < s.pushes = omega (arith, v.counts) in
            let last = v.tail_last some_queued in
            inr (
              some_queued,
              last ∙ sym (pushed_old (s.pushes - 1) (omega arith)),
              ap s.memory.next last ∙ v.last_link some_queued,
            )
      ]

  first_linking :
      s.pops ≡ s.pushes
      → (push_swap p item s).producers ((push_swap p item s).pusher s.pops)
        ≡ linking 0 ((push_swap p item s).pushed s.pops) s.pops
  unfolding push_swap
  first_linking z =
      ap (push_swap p item s).producers (pusher_new s.pops z)
      ∙ put-at p p (linking s.memory.tail item s.pushes) s.producers refl
      ∙ ap (λ (a : ℕ). linking a item s.pushes) (v.tail_null z)
      ∙ ap (λ (a : ℕ). linking 0 a s.pushes) (sym (pushed_new s.pops z))
      ∙ ap (λ (a : ℕ). linking 0 ((push_swap p item s).pushed s.pops) a) (sym z)

  swap-Head : HeadOk s → HeadOk (push_swap p item s)
  unfolding push_swap
  swap-Head (inl (h, inl z)) = inl (h, inr (first_linking z))
  swap-Head (inl (h, inr l)) = elim (ℕ_discrete s.pops s.pushes) [
    | yes z ↦ inl (h, inr (first_linking z))
    | no z ↦ inl (h, inr (swap_linking-at 0 s.pops (omega (arith, v.counts)) l))
  ]
  swap-Head (inr (a, b)) = inr (omega arith, b ∙ sym (pushed_old s.pops a))

  swap-Consumer : (c : Consumer) → ConsumerOk s c → ConsumerOk (push_swap p item s) c
  unfolding push_swap
  swap-Consumer resting o = swap-Head o
  swap-Consumer getting (h, o) = (omega arith, swap-Head o)
  swap-Consumer (popping held) (a, b, c) = (omega arith, b ∙ sym (pushed_old s.pops a), c)
  swap-Consumer (storing held found) (a, b, c, inl z) =
      (omega arith, b ∙ sym (pushed_old s.pops a), c, inl z)
  swap-Consumer (storing held found) (a, b, c, inr (x, y, z)) = (
    omega arith,
    b ∙ sym (pushed_old s.pops a),
    c,
    inr (omega arith, y ∙ sym (pushed_old (s.pops + 1) x), z),
  )
  swap-Consumer (emptying held) (a, b, c) = (omega arith, b ∙ sym (pushed_old s.pops a), c)
  swap-Consumer (awaiting_next held) (a, b, c) =
      (omega arith, b ∙ sym (pushed_old s.pops (omega arith)), c)
  swap-Consumer (storing_next held found) (a, b, c, y, z) = (
    omega arith,
    b ∙ sym (pushed_old s.pops (omega arith)),
    c,
    y ∙ sym (pushed_old (s.pops + 1) a),
    z,
  )

  swap-links :
      (i : ℕ)
      → s.pops ≤ i
      → i + 1 < s.pushes + 1
      → (s.memory.next ((push_swap p item s).pushed i) ≡ (push_swap p item s).pushed (i + 1))
        ⊎ (s.memory.next ((push_swap p item s).pushed i) ≡ 0)
          × ((push_swap p item s).producers ((push_swap p item s).pusher (i + 1))
              ≡ linking
                  ((push_swap p item s).pushed i)
                  ((push_swap p item s).pushed (i + 1))
                  (i + 1))
  unfolding push_swap
  swap-links i a b = elim (ℕ_discrete (i + 1) s.pushes) [
    | no k ↦
        let here = pushed_old i (omega arith) in
        elim (v.links i a (omega arith)) [
          | inl x ↦ inl (ap s.memory.next here ∙ x ∙ sym (pushed_old (i + 1) (omega arith)))
          | inr (x, l) ↦ inr (
            ap s.memory.next here ∙ x,
            swap_linking-at (s.pushed i) (i + 1) (omega arith) l
                ∙ ap (λ (c : ℕ). linking c ((push_swap p item s).pushed (i + 1)) (i + 1))
                    (sym here),
          )
        ]
    | yes k ↦
        let some_queued : s.pops < s.pushes = omega arith in
        let back : s.pushes - 1 ≡ i = omega arith in
        let here = pushed_old i (omega arith) in
        let tail_is = v.tail_last some_queued ∙ ap s.pushed back ∙ sym here in
        inr (
          ap s.memory.next (here ∙ ap s.pushed (sym back)) ∙ v.last_link some_queued,
          ap (push_swap p item s).producers (pusher_new (i + 1) k)
              ∙ put-at p p (linking s.memory.tail item s.pushes) s.producers refl
              ∙ ap (λ (c : ℕ). linking c item s.pushes) tail_is
              ∙ ap (λ (c : ℕ). linking ((push_swap p item s).pushed i) c s.pushes)
                  (sym (pushed_new (i + 1) k))
              ∙ ap
                  (λ (c : ℕ).
                    linking ((push_swap p item s).pushed i) ((push_swap p item s).pushed (i + 1)) c)
                  (sym k),
        )
  ]

  swap-claims :
      (q r one other : ℕ)
      → (push_swap p item s).producers q ≡ swapping one
      → (push_swap p item s).producers r ≡ swapping other
      → q ≢ r
      → one ≢ other
  unfolding push_swap
  swap-claims q r one other x y n = elim (ℕ_discrete q p) [
    | yes a ↦ cc (sym (put-at p q (linking s.memory.tail item s.pushes) s.producers a) ∙ x)
    | no a ↦ elim (ℕ_discrete r p) [
      | yes b ↦ cc (sym (put-at p r (linking s.memory.tail item s.pushes) s.producers b) ∙ y)
      | no b ↦
          v.claims q r one other
            (sym (put-else p q (linking s.memory.tail item s.pushes) s.producers a) ∙ x)
            (sym (put-else p r (linking s.memory.tail item s.pushes) s.producers b) ∙ y) n
    ]
  ]

  pub swap-Inv : Inv (push_swap p item s)
  unfolding push_swap
  swap-Inv = record {
    counts = omega (arith, v.counts);
    not_null = λ i a b. elim (ℕ_discrete i s.pushes) [
      | yes k ↦ rw (pushed_new i k) claimed.0
      | no k ↦ rw (pushed_old i (omega arith)) (v.not_null i a (omega arith))
    ];
    distinct = λ i j a b c.
        let old = pushed_old i (omega arith) in
        elim (ℕ_discrete j s.pushes) [
          | yes k ↦ rw (old, pushed_new j k) (claimed.2 i a (omega arith))
          | no k ↦ rw (old, pushed_old j (omega arith)) (v.distinct i j a b (omega arith))
        ];
    tail_null = λ z. absurd (omega (arith, v.counts));
    tail_last = λ h. sym (pushed_new (s.pushes + 1 - 1) (omega arith));
    last_link = λ h. ap s.memory.next (pushed_new (s.pushes + 1 - 1) (omega arith)) ∙ claimed.1;
    links = swap-links;
    producers = swap-producers;
    claims = swap-claims;
    consumer = swap-Consumer s.consumer v.consumer;
    history = λ i h. v.history i h ∙ sym (pushed_old i (omega (arith, v.counts)));
  }
