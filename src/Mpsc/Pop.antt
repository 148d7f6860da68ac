-- ===== src/Mpsc/Pop.antt =====
-- An access of the consumer keeps the invariant of the os_mpsc queue (os_mpsc_looks_empty,
-- os_mpsc_get_head and os_mpsc_pop_head of src/inline_internal.h).
use swift_corelibs_libdispat.Common.{
  ℕ, ◌+◌, ◌-◌, ◌<◌, ◌≡◌, ◌≢◌, ◌⊎◌, inl, inr, refl, sym, ap, ◌∙◌, arith, true, false, ◌==◌,
  ℕ_discrete, dec_lt, subst, none, some,
}
use swift_corelibs_libdispat.Mpsc.{
  Memory, Producer, idle, swapping, linking, Consumer, resting, getting, popping, storing, emptying,
  awaiting_next, storing_next, System, Access, access, consume, record_pop, consumer_step,
}
use swift_corelibs_libdispat.Mpsc.Invariant.{AtRest, ProducerOk, ConsumerOk, Inv}

-- The queue after an access of the consumer
abbrev pub result : System → Access → System
result s a = record_pop a.popped (record s { memory = a.memory; consumer = a.goes_on })

abbrev at_head : ℕ → Memory → Memory
at_head h m = record m { head = h }

module _ (s : System) (h : ℕ) (c : Consumer) (v : Inv s)
    (first : s.memory.head ≡ 0 → AtRest s.consumer → (h ≡ 0) × AtRest c) where
  move-Producer :
      (q : ℕ) (a : Producer)
      → ProducerOk s q a
      → ProducerOk (result s (access (at_head h s.memory) c none)) q a
  move-Producer q idle o = o
  move-Producer q (swapping item) o = o
  move-Producer q (linking prev item n) (a, b, d, w, inl (x, y, z, r)) =
      let (g, k) = first z r in (a, b, d, w, inl (x, y, g, k))
  move-Producer q (linking prev item n) (a, b, d, w, inr x) = (a, b, d, w, inr x)

  -- An access that pops nothing
  move-Inv :
      ConsumerOk (result s (access (at_head h s.memory) c none)) c
      → Inv (result s (access (at_head h s.memory) c none))
  move-Inv o = record {
    counts = v.counts;
    not_null = v.not_null;
    distinct = v.distinct;
    tail_null = v.tail_null;
    tail_last = v.tail_last;
    last_link = v.last_link;
    links = v.links;
    producers = λ q. move-Producer q (s.producers q) (v.producers q);
    claims = v.claims;
    consumer = o;
    history = v.history;
  }

module _ (s : System) (h t item : ℕ) (v : Inv s) (busy : AtRest s.consumer → ⊥)
    (some_queued : s.pops < s.pushes) (held : item ≡ s.pushed s.pops)
    (left : (s.pops + 1 < s.pushes)
        × (h ≡ s.pushed (s.pops + 1))
        × (t ≡ s.memory.tail)
        × (s.memory.next item ≡ s.pushed (s.pops + 1))
      ⊎ (s.pops + 1 ≡ s.pushes) × (h ≡ 0) × (t ≡ 0)) where
  abbrev after_pop : System
  after_pop = result s (access (record s.memory { head = h; tail = t }) resting (some item))

  -- The item after the popped one is linked.
  no_successor : (n : ℕ) → n ≡ s.pops + 1 → n < s.pushes → s.memory.next (s.pushed (n - 1)) ≢ 0
  no_successor n e l null = elim left [
    | inl (a, b, c, d) ↦
        v.not_null (s.pops + 1) (omega arith) a
          (sym d ∙ ap s.memory.next (held ∙ ap s.pushed (omega arith)) ∙ null)
    | inr (a, b, c) ↦ omega arith
  ]

  pop-Producer : (q : ℕ) (a : Producer) → ProducerOk s q a → ProducerOk after_pop q a
  pop-Producer q idle o = o
  pop-Producer q (swapping other) (a, b, c) = (a, b, λ i x y. c i (omega arith) y)
  pop-Producer q (linking prev other n) (a, b, d, w, inl (x, y, z, r)) = absurd (busy r)
  pop-Producer q (linking prev other n) (a, b, d, w, inr (x, y, z)) =
      elim (ℕ_discrete n (s.pops + 1)) [
        | yes k ↦ absurd (no_successor n k b (ap s.memory.next (sym y) ∙ z))
        | no k ↦ (omega arith, b, d, w, inr (omega arith, y, z))
      ]

  pop-Inv : Inv after_pop
  pop-Inv = record {
    counts = omega arith;
    not_null = λ i a b. v.not_null i (omega arith) b;
    distinct = λ i j a b c. v.distinct i j (omega arith) b c;
    tail_null = λ z. elim left [ inl (a, b, c, d) ↦ absurd (omega arith) | inr (a, b, c) ↦ c ];
    tail_last = λ z. elim left [
      | inl (a, b, c, d) ↦ c ∙ v.tail_last some_queued
      | inr (a, b, c) ↦ absurd (omega arith)
    ];
    last_link = λ z. v.last_link some_queued;
    links = λ i a b. v.links i (omega arith) b;
    producers = λ q. pop-Producer q (s.producers q) (v.producers q);
    claims = v.claims;
    consumer = elim left [ inl (a, b, c, d) ↦ inr (a, b) | inr (a, b, c) ↦ inl (b, inl a) ];
    history = λ i z. elim (ℕ_discrete i s.pops) [
      | yes k ↦ let e : (i == s.pops) ≡ true = ground arith in rw e (held ∙ ap s.pushed (sym k))
      | no k ↦ let e : (i == s.pops) ≡ false = ground arith in rw e (v.history i (omega arith))
    ];
  }

module _ (s : System) (v : Inv s) where
  -- What the load of a link finds: nothing yet, or the next item.
  loaded :
      s.pops < s.pushes
      → (s.memory.next (s.pushed s.pops) ≡ 0)
        ⊎ (s.pops + 1 < s.pushes) × (s.memory.next (s.pushed s.pops) ≡ s.pushed (s.pops + 1))
  loaded h = elim (dec_lt (s.pops + 1) s.pushes) [
    | yes a ↦ elim (v.links s.pops (omega arith) a) [ inl x ↦ inr (a, x) | inr (x, l) ↦ inl x ]
    | no a ↦ inl (ap (λ (i : ℕ). s.memory.next (s.pushed i)) (omega arith) ∙ v.last_link h)
  ]

  step-Inv : (c : Consumer) → s.consumer ≡ c → ConsumerOk s c → Inv (result s (consume s.memory c))
  unfolding consume
  step-Inv resting e o = elim (ℕ_discrete s.memory.tail 0) [
    | yes z ↦
        let t : (s.memory.tail == 0) ≡ true = ground arith in
        rw t (move-Inv s s.memory.head resting v (λ x r. (x, tt)) o)
    | no z ↦
        let t : (s.memory.tail == 0) ≡ false = ground arith in
        let queued : s.pops < s.pushes = elim (ℕ_discrete s.pops s.pushes) [
          | yes k ↦ absurd (z (v.tail_null k))
          | no k ↦ omega (arith, v.counts)
        ] in
        rw t (move-Inv s s.memory.head getting v (λ x r. (x, tt)) (queued, o))
  ]
  step-Inv getting e (queued, o) = elim (ℕ_discrete s.memory.head 0) [
    | yes z ↦
        let t : (s.memory.head == 0) ≡ true = ground arith in
        rw t (move-Inv s s.memory.head getting v (λ x r. (x, tt)) (queued, o))
    | no z ↦
        let t : (s.memory.head == 0) ≡ false = ground arith in
        let first : s.memory.head ≡ s.pushed s.pops = elim o [
          | inl (x, y) ↦ absurd (z x)
          | inr (x, y) ↦ y
        ] in
        rw t (
          move-Inv s s.memory.head (popping s.memory.head) v (λ x r. absurd (z x))
            (queued, first, refl))
  ]
  step-Inv (popping item) e (queued, held, head) =
      move-Inv s s.memory.head (storing item (s.memory.next item)) v
        (λ x r. absurd (subst AtRest e r))
        (
          queued,
          held,
          head,
          elim (loaded queued) [
            | inl x ↦ inl (ap s.memory.next held ∙ x)
            | inr (a, x) ↦ inr (a, ap s.memory.next held ∙ x, refl)
          ],
        )
  step-Inv (storing item found) e (queued, held, head, inl z) =
      let t : (found == 0) ≡ true = ground arith in
      rw t (move-Inv s found (emptying item) v (λ x r. absurd (subst AtRest e r)) (queued, held, z))
  step-Inv (storing item found) e (queued, held, head, inr (a, b, c)) =
      let there : found ≢ 0 = λ z. v.not_null (s.pops + 1) (omega arith) a (sym b ∙ z) in
      let t : (found == 0) ≡ false = ground arith in
      rw t (
        pop-Inv s found s.memory.tail item v (λ r. subst AtRest e r) queued held
          (inl (a, b, refl, c ∙ b)))
  step-Inv (emptying item) e (queued, held, head) = elim (ℕ_discrete s.memory.tail item) [
    | yes k ↦
        let t : (s.memory.tail == item) ≡ true = ground arith in
        let last : s.pops + 1 ≡ s.pushes = elim (dec_lt (s.pops + 1) s.pushes) [
          | yes a ↦ absurd (
              v.distinct s.pops (s.pushes - 1) (omega arith) (omega arith) (omega arith)
                (sym held ∙ sym k ∙ v.tail_last queued))
          | no a ↦ omega arith
        ] in
        rw t (
          pop-Inv s s.memory.head 0 item v (λ r. subst AtRest e r) queued held
            (inr (last, head, refl)))
    | no k ↦
        let t : (s.memory.tail == item) ≡ false = ground arith in
        let more : s.pops + 1 < s.pushes = elim (dec_lt (s.pops + 1) s.pushes) [
          | yes a ↦ a
          | no a ↦ absurd (k (v.tail_last queued ∙ ap s.pushed (omega arith) ∙ sym held))
        ] in
        rw t (
          move-Inv s s.memory.head (awaiting_next item) v (λ x r. absurd (subst AtRest e r))
            (more, held, head))
  ]
  step-Inv (awaiting_next item) e (more, held, head) = elim (ℕ_discrete (s.memory.next item) 0) [
    | yes k ↦
        let t : (s.memory.next item == 0) ≡ true = ground arith in
        rw t (
          move-Inv s s.memory.head (awaiting_next item) v (λ x r. absurd (subst AtRest e r))
            (more, held, head))
    | no k ↦
        let t : (s.memory.next item == 0) ≡ false = ground arith in
        let found : s.memory.next item ≡ s.pushed (s.pops + 1) = elim (loaded (omega arith)) [
          | inl x ↦ absurd (k (ap s.memory.next held ∙ x))
          | inr (a, x) ↦ ap s.memory.next held ∙ x
        ] in
        rw t (
          move-Inv s s.memory.head (storing_next item (s.memory.next item)) v
            (λ x r. absurd (subst AtRest e r)) (more, held, head, found, refl))
  ]
  step-Inv (storing_next item found) e (more, held, head, b, c) =
      pop-Inv s found s.memory.tail item v (λ r. subst AtRest e r) (omega arith) held
        (inl (more, b, refl, c ∙ b))

  pub consume-Inv : Inv (consumer_step s)
  unfolding consumer_step
  consume-Inv = step-Inv s.consumer refl v.consumer
