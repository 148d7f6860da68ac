-- ===== src/Mpsc/Clear.antt =====
-- The store of a producer to the link of its item keeps the invariant of the os_mpsc queue
-- (os_mpsc_push_update_tail of src/inline_internal.h).
use swift_corelibs_libdispat.Common.{
  ℕ, ◌+◌, ◌-◌, ◌≤◌, ◌<◌, ◌≡◌, ◌≢◌, inl, inr, refl, sym, ap, ◌∙◌, arith, true, false, ◌==◌,
  ℕ_discrete,
}
use swift_corelibs_libdispat.Mpsc.{
  Producer, idle, swapping, linking, Consumer, resting, getting, popping, storing, emptying,
  awaiting_next, storing_next, System, IsFree, push_clear,
}
use swift_corelibs_libdispat.Mpsc.Invariant.{
  ProducerOk, HeadOk, ConsumerOk, Inv, put-at, put-else, item_of,
}

module _ (p item : ℕ) (s : System) (e : s.producers p ≡ idle) (f : IsFree item s) (v : Inv s) where
  next_else : (b : ℕ) → b ≢ item → (push_clear p item s).memory.next b ≡ s.memory.next b
  unfolding push_clear
  next_else b n = let t : (b == item) ≡ false = ground arith in rw t refl

  next_null : (b : ℕ) → s.memory.next b ≡ 0 → (push_clear p item s).memory.next b ≡ 0
  unfolding push_clear
  next_null b z = ground arith

  queued_else :
      (i : ℕ)
      → s.pops ≤ i
      → i < s.pushes
      → (push_clear p item s).memory.next (s.pushed i) ≡ s.memory.next (s.pushed i)
  queued_else i a b = next_else (s.pushed i) (f.not_queued i a b)

  still_linking :
      (q prev other n : ℕ)
      → s.producers q ≡ linking prev other n
      → (push_clear p item s).producers q ≡ linking prev other n
  unfolding push_clear
  still_linking q prev other n l = elim (ℕ_discrete q p) [
    | yes same ↦ cc
    | no other_one ↦ put-else p q (swapping item) s.producers other_one ∙ l
  ]

  clear-Producer : (q : ℕ) (a : Producer) → ProducerOk s q a → ProducerOk (push_clear p item s) q a
  unfolding push_clear
  clear-Producer q idle o = tt
  clear-Producer q (swapping other) (o, n, w) = (o, next_null other n, w)
  clear-Producer q (linking prev other n) (a, b, c, d, inl x) = (a, b, c, d, inl x)
  clear-Producer q (linking prev other n) (a, b, c, d, inr (x, y, z)) =
      (a, b, c, d, inr (x, y, next_null prev z))

  clear-Head : HeadOk s → HeadOk (push_clear p item s)
  unfolding push_clear
  clear-Head (inl (z, inl n)) = inl (z, inl n)
  clear-Head (inl (z, inr l)) =
      inl (z, inr (still_linking (s.pusher s.pops) 0 (s.pushed s.pops) s.pops l))
  clear-Head (inr x) = inr x

  held_else :
      (held : ℕ)
      → s.pops < s.pushes
      → held ≡ s.pushed s.pops
      → (push_clear p item s).memory.next held ≡ s.memory.next held
  held_else held h x = next_else held (λ q. f.not_queued s.pops (omega arith) h (sym x ∙ q))

  clear-Consumer : (c : Consumer) → ConsumerOk s c → ConsumerOk (push_clear p item s) c
  unfolding push_clear
  clear-Consumer resting o = clear-Head o
  clear-Consumer getting (h, o) = (h, clear-Head o)
  clear-Consumer (popping held) o = o
  clear-Consumer (storing held found) (h, x, y, inl z) = (h, x, y, inl z)
  clear-Consumer (storing held found) (h, x, y, inr (a, b, c)) =
      (h, x, y, inr (a, b, held_else held h x ∙ c))
  clear-Consumer (emptying held) o = o
  clear-Consumer (awaiting_next held) o = o
  clear-Consumer (storing_next held found) (h, x, y, b, c) =
      (h, x, y, b, held_else held (omega arith) x ∙ c)

  clear-claims :
      (q r one other : ℕ)
      → (push_clear p item s).producers q ≡ swapping one
      → (push_clear p item s).producers r ≡ swapping other
      → q ≢ r
      → one ≢ other
  unfolding push_clear
  clear-claims q r one other x y n = elim (ℕ_discrete q p) [
    | yes a ↦ elim (ℕ_discrete r p) [
      | yes b ↦ absurd (n (a ∙ sym b))
      | no b ↦
          let z = sym (put-else p r (swapping item) s.producers b) ∙ y in
          let w = f.not_claimed r other z in
          λ same.
            w (sym same ∙ sym (ap item_of (sym (put-at p q (swapping item) s.producers a) ∙ x)))
    ]
    | no a ↦
        let x' = sym (put-else p q (swapping item) s.producers a) ∙ x in
        elim (ℕ_discrete r p) [
          | yes b ↦
              let w = f.not_claimed q one x' in
              λ same.
                w (same ∙ sym (ap item_of (sym (put-at p r (swapping item) s.producers b) ∙ y)))
          | no b ↦
              v.claims q r one other x' (sym (put-else p r (swapping item) s.producers b) ∙ y) n
        ]
  ]

  clear-producers : (q : ℕ) → ProducerOk (push_clear p item s) q ((push_clear p item s).producers q)
  unfolding push_clear
  clear-producers q = elim (ℕ_discrete q p) [
    | yes a ↦
        let t : (q == p) ≡ true = ground arith in rw t (f.not_null, ground arith, f.not_queued)
    | no a ↦
        let t : (q == p) ≡ false = ground arith in
        rw t (clear-Producer q (s.producers q) (v.producers q))
  ]

  pub clear-Inv : Inv (push_clear p item s)
  unfolding push_clear
  clear-Inv = record {
    counts = v.counts;
    not_null = v.not_null;
    distinct = v.distinct;
    tail_null = v.tail_null;
    tail_last = v.tail_last;
    last_link = λ h. next_null (s.pushed (s.pushes - 1)) (v.last_link h);
    links = λ i a b. elim (v.links i a b) [
      | inl x ↦ inl (queued_else i a (omega arith) ∙ x)
      | inr (x, l) ↦ inr (
        next_null (s.pushed i) x,
        still_linking (s.pusher (i + 1)) (s.pushed i) (s.pushed (i + 1)) (i + 1) l,
      )
    ];
    producers = clear-producers;
    claims = clear-claims;
    consumer = clear-Consumer s.consumer v.consumer;
    history = v.history;
  }
