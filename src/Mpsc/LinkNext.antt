-- ===== src/Mpsc/LinkNext.antt =====
-- The store of an item into the link of the item before it keeps the invariant of the os_mpsc queue
-- (os_mpsc_push_update_prev of src/inline_internal.h).
use swift_corelibs_libdispat.Common.{
  ℕ, ◌+◌, ◌-◌, ◌≤◌, ◌<◌, ◌≡◌, ◌≢◌, ◌⊎◌, inl, inr, refl, sym, ap, ◌∙◌, arith, true, false, ◌==◌,
  if◌then◌else◌, ℕ_discrete, dec_lt,
}
use swift_corelibs_libdispat.Mpsc.{
  Memory, Producer, idle, swapping, linking, Consumer, resting, getting, popping, storing, emptying,
  awaiting_next, storing_next, System, push_link, push_update_prev,
}
use swift_corelibs_libdispat.Mpsc.Invariant.{ProducerOk, HeadOk, ConsumerOk, Inv}
use swift_corelibs_libdispat.Mpsc.Link.{
  linked, link_other, link-claims, other_number, link-producers, first-Inv,
}

module _ (p prev item number : ℕ) (s : System) (e : s.producers p ≡ linking prev item number)
    (v : Inv s) where
  own : ProducerOk s p (linking prev item number)
  own = linked p prev item number s e v

  module _ (after : s.pops < number) (last : prev ≡ s.pushed (number - 1))
      (null : s.memory.next prev ≡ 0) where
    prev_not_null : prev ≢ 0
    prev_not_null z = v.not_null (number - 1) (omega arith) (omega (arith, own.1)) (sym last ∙ z)

    memory_next :
        (push_link p prev item s).memory
        ≡ record s.memory { next = λ b. if b == prev then item else s.memory.next b }
    unfolding push_link push_update_prev
    memory_next = let t : (prev == 0) ≡ false = ground (arith, prev_not_null) in rw t refl

    next_of : (b : ℕ) → b ≢ prev → (push_link p prev item s).memory.next b ≡ s.memory.next b
    next_of b n =
        let t : (b == prev) ≡ false = ground arith in
        ap (λ (m : Memory). m.next b) memory_next ∙ rw t refl

    next_prev : (push_link p prev item s).memory.next prev ≡ item
    next_prev =
        let t : (prev == prev) ≡ true = ground arith in
        ap (λ (m : Memory). m.next prev) memory_next ∙ rw t refl

    -- The other queued items are other addresses.
    not_prev : (i : ℕ) → s.pops ≤ i → i < s.pushes → i ≢ number - 1 → s.pushed i ≢ prev
    not_prev i a b n same = elim (dec_lt i (number - 1)) [
      | yes h ↦ v.distinct i (number - 1) a h (omega (arith, own.1)) (same ∙ last)
      | no h ↦ v.distinct (number - 1) i (omega arith) (omega arith) b (sym last ∙ sym same)
    ]

    next-Producer :
        (q : ℕ) (a : Producer) → q ≢ p → ProducerOk s q a → ProducerOk (push_link p prev item s) q a
    unfolding push_link
    next-Producer q idle d o = tt
    next-Producer q (swapping other) d (a, b, c) = (
      a,
      next_of other
            (λ same. c (number - 1) (omega arith) (omega (arith, own.1)) (sym last ∙ sym same))
          ∙ b,
      c,
    )
    next-Producer q (linking other it n) d (a, b, c, w, inl (x, y, h, r)) =
        (a, b, c, w, inl (x, y, ap (λ (m : Memory). m.head) memory_next ∙ h, r))
    next-Producer q (linking other it n) d (a, b, c, w, inr (x, y, h)) =
        let k = other_number p prev item number s e v q n d w in
        (
          a,
          b,
          c,
          w,
          inr (
            x,
            y,
            next_of other (λ same.
                  not_prev (n - 1) (omega arith) (omega arith) (omega (arith, k)) (sym y ∙ same))
                ∙ h,
          ),
        )

    next-Head : HeadOk s → HeadOk (push_link p prev item s)
    unfolding push_link
    next-Head (inl (h, inl z)) = inl (ap (λ (m : Memory). m.head) memory_next ∙ h, inl z)
    next-Head (inl (h, inr l)) = inl (
      ap (λ (m : Memory). m.head) memory_next ∙ h,
      inr (
          link_other p prev item number s e v (s.pusher s.pops) 0 (s.pushed s.pops) s.pops l
            (omega arith)),
    )
    next-Head (inr (a, b)) = inr (a, ap (λ (m : Memory). m.head) memory_next ∙ b)

    -- The link that the consumer has found stays.
    found_stays :
        (held found : ℕ)
        → s.pops + 1 < s.pushes
        → held ≡ s.pushed s.pops
        → found ≡ s.pushed (s.pops + 1)
        → s.memory.next held ≡ found
        → (push_link p prev item s).memory.next held ≡ found
    found_stays held found a b c f =
        next_of held (λ same.
          v.not_null (s.pops + 1) (omega arith) a (sym c ∙ sym f ∙ ap s.memory.next same ∙ null))
        ∙ f

    next-Consumer : (c : Consumer) → ConsumerOk s c → ConsumerOk (push_link p prev item s) c
    unfolding push_link
    next-Consumer resting o = next-Head o
    next-Consumer getting (h, o) = (h, next-Head o)
    next-Consumer (popping held) (a, b, c) = (a, b, ap (λ (m : Memory). m.head) memory_next ∙ c)
    next-Consumer (storing held found) (a, b, c, inl z) =
        (a, b, ap (λ (m : Memory). m.head) memory_next ∙ c, inl z)
    next-Consumer (storing held found) (a, b, c, inr (x, y, z)) = (
      a,
      b,
      ap (λ (m : Memory). m.head) memory_next ∙ c,
      inr (x, y, found_stays held found x b y z),
    )
    next-Consumer (emptying held) (a, b, c) = (a, b, ap (λ (m : Memory). m.head) memory_next ∙ c)
    next-Consumer (awaiting_next held) (a, b, c) =
        (a, b, ap (λ (m : Memory). m.head) memory_next ∙ c)
    next-Consumer (storing_next held found) (a, b, c, y, z) =
        (a, b, ap (λ (m : Memory). m.head) memory_next ∙ c, y, found_stays held found a b y z)

    next-links :
        (i : ℕ)
        → s.pops ≤ i
        → i + 1 < s.pushes
        → ((push_link p prev item s).memory.next (s.pushed i) ≡ s.pushed (i + 1))
          ⊎ ((push_link p prev item s).memory.next (s.pushed i) ≡ 0)
            × ((push_link p prev item s).producers (s.pusher (i + 1))
                ≡ linking (s.pushed i) (s.pushed (i + 1)) (i + 1))
    next-links i a b = elim (ℕ_discrete i (number - 1)) [
      | yes k ↦
          let up : i + 1 ≡ number = omega arith in
          inl (
            ap (push_link p prev item s).memory.next (ap s.pushed k ∙ sym last)
            ∙ next_prev
            ∙ own.2
            ∙ ap s.pushed (sym up))
      | no k ↦
          let same = next_of (s.pushed i) (not_prev i a (omega arith) k) in
          elim (v.links i a b) [
            | inl x ↦ inl (same ∙ x)
            | inr (x, l) ↦ inr (
              same ∙ x,
              link_other p prev item number s e v (s.pusher (i + 1)) (s.pushed i) (s.pushed (i + 1))
                  (i + 1) l (omega arith),
            )
          ]
    ]

    next-Inv : Inv (push_link p prev item s)
    unfolding push_link
    next-Inv = record {
      counts = v.counts;
      not_null = v.not_null;
      distinct = v.distinct;
      tail_null = λ h. ap (λ (m : Memory). m.tail) memory_next ∙ v.tail_null h;
      tail_last = λ h. ap (λ (m : Memory). m.tail) memory_next ∙ v.tail_last h;
      last_link = λ h.
          next_of (s.pushed (s.pushes - 1))
            (not_prev (s.pushes - 1) (omega arith) (omega arith) (omega (arith, own.1)))
          ∙ v.last_link h;
      links = next-links;
      producers = link-producers p prev item number s e v next-Producer;
      claims = link-claims p prev item number s e v;
      consumer = next-Consumer s.consumer v.consumer;
      history = v.history;
    }

  pub link-Inv : Inv (push_link p prev item s)
  link-Inv = elim own.4 [
    | inl (z, first, head, rest) ↦ first-Inv p prev item number s e v z first rest
    | inr (after, last, null) ↦ next-Inv after last null
  ]
