-- ===== src/Mpsc/Link.antt =====
-- What the two stores that link an item have in common, and the store of the first item into the head,
-- which keeps the invariant of the os_mpsc queue
-- (os_mpsc_push_update_prev of src/inline_internal.h).
use swift_corelibs_libdispat.Common.{
  ℕ, ◌+◌, ◌-◌, ◌≡◌, ◌≢◌, inl, inr, refl, sym, ap, ◌∙◌, arith, true, ◌==◌, ℕ_discrete, subst,
}
use swift_corelibs_libdispat.Mpsc.{
  Memory, Producer, idle, swapping, linking, Consumer, resting, getting, popping, storing, emptying,
  awaiting_next, storing_next, System, push_link, push_update_prev,
}
use swift_corelibs_libdispat.Mpsc.Invariant.{
  AtRest, ProducerOk, HeadOk, ConsumerOk, Inv, put-at, put-else, number_of,
}

module _ (p prev item number : ℕ) (s : System) (e : s.producers p ≡ linking prev item number)
    (v : Inv s) where
  pub linked : ProducerOk s p (linking prev item number)
  linked = subst (ProducerOk s p) e (v.producers p)

  -- Another producer than this one has another number.
  pub link_other :
      (q other it n : ℕ)
      → s.producers q ≡ linking other it n
      → n ≢ number
      → (push_link p prev item s).producers q ≡ linking other it n
  unfolding push_link
  link_other q other it n l d = elim (ℕ_discrete q p) [
    | yes same ↦ absurd (d (ap number_of (sym l ∙ ap s.producers same ∙ e)))
    | no k ↦ put-else p q idle s.producers k ∙ l
  ]

  pub link-claims :
      (q r one other : ℕ)
      → (push_link p prev item s).producers q ≡ swapping one
      → (push_link p prev item s).producers r ≡ swapping other
      → q ≢ r
      → one ≢ other
  unfolding push_link
  link-claims q r one other x y n = elim (ℕ_discrete q p) [
    | yes a ↦ cc (sym (put-at p q idle s.producers a) ∙ x)
    | no a ↦ elim (ℕ_discrete r p) [
      | yes b ↦ cc (sym (put-at p r idle s.producers b) ∙ y)
      | no b ↦
          v.claims q r one other (sym (put-else p q idle s.producers a) ∙ x)
            (sym (put-else p r idle s.producers b) ∙ y) n
    ]
  ]

  -- The producers of two numbers are different.
  pub other_number : (q n : ℕ) → q ≢ p → s.pusher n ≡ q → n ≢ number
  other_number q n d x same = d (sym x ∙ ap s.pusher same ∙ linked.3)

  pub link-producers :
      ((q : ℕ) (a : Producer) → q ≢ p → ProducerOk s q a → ProducerOk (push_link p prev item s) q a)
      → (q : ℕ) → ProducerOk (push_link p prev item s) q ((push_link p prev item s).producers q)
  unfolding push_link
  link-producers others q = elim (ℕ_discrete q p) [
    | yes same ↦ rw (put-at p q idle s.producers same) tt
    | no n ↦ rw (put-else p q idle s.producers n) (others q (s.producers q) n (v.producers q))
  ]

  module _ (z : prev ≡ 0) (first : number ≡ s.pops) (rest : AtRest s.consumer) where
    memory_first : (push_link p prev item s).memory ≡ record s.memory { head = item }
    unfolding push_link push_update_prev
    memory_first = let t : (prev == 0) ≡ true = ground arith in rw t refl

    first-Producer :
        (q : ℕ) (a : Producer) → q ≢ p → ProducerOk s q a → ProducerOk (push_link p prev item s) q a
    unfolding push_link
    first-Producer q idle d o = tt
    first-Producer q (swapping other) d (a, b, c) = rw memory_first (a, b, c)
    first-Producer q (linking other it n) d (a, b, c, w, inl (x, y, h, r)) =
        absurd (other_number q n d w (y ∙ sym first))
    first-Producer q (linking other it n) d (a, b, c, w, inr (x, y, h)) =
        (a, b, c, w, inr (x, y, rw memory_first h))

    first-Head : HeadOk (push_link p prev item s)
    unfolding push_link
    first-Head = inr (
      omega (arith, linked.1, first),
      ap (λ (m : Memory). m.head) memory_first ∙ linked.2 ∙ ap s.pushed first,
    )

    first-Consumer :
        (c : Consumer) → AtRest c → ConsumerOk s c → ConsumerOk (push_link p prev item s) c
    unfolding push_link
    first-Consumer resting r o = first-Head
    first-Consumer getting r (h, o) = (h, first-Head)
    first-Consumer (popping held) r o = elim r [ ]
    first-Consumer (storing held found) r o = elim r [ ]
    first-Consumer (emptying held) r o = elim r [ ]
    first-Consumer (awaiting_next held) r o = elim r [ ]
    first-Consumer (storing_next held found) r o = elim r [ ]

    pub first-Inv : Inv (push_link p prev item s)
    unfolding push_link
    first-Inv = record {
      counts = v.counts;
      not_null = v.not_null;
      distinct = v.distinct;
      tail_null = λ h. ap (λ (m : Memory). m.tail) memory_first ∙ v.tail_null h;
      tail_last = λ h. ap (λ (m : Memory). m.tail) memory_first ∙ v.tail_last h;
      last_link =
          λ h. ap (λ (m : Memory). m.next (s.pushed (s.pushes - 1))) memory_first ∙ v.last_link h;
      links = λ i a b. elim (v.links i a b) [
        | inl x ↦ inl (ap (λ (m : Memory). m.next (s.pushed i)) memory_first ∙ x)
        | inr (x, l) ↦ inr (
          ap (λ (m : Memory). m.next (s.pushed i)) memory_first ∙ x,
          link_other (s.pusher (i + 1)) (s.pushed i) (s.pushed (i + 1)) (i + 1) l (omega arith),
        )
      ];
      producers = link-producers first-Producer;
      claims = link-claims;
      consumer = first-Consumer s.consumer rest v.consumer;
      history = v.history;
    }
