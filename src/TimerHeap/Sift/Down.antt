-- ===== src/TimerHeap/Sift/Down.antt =====
-- Sifting down (src/event/event.c) towards the heap order.
use mathlib.Core.Path.{fun_ext}
use native.Mathlib.Nat.{div-div-eq-div-mul}
use swift_corelibs_libdispat.Common.{
  ℕ, zero, suc, ◌+◌, ◌-◌, ◌*◌, ◌/◌, ◌%◌, ◌^◌, ◌≤◌, ◌<◌, ◌≡◌, ◌⊎◌, inl, inr, sym, ap, ◌∙◌, arith,
  true, false, leb, ltb, ◌==◌, dec_lt, subst, ℕ_discrete,
}
use swift_corelibs_libdispat.TimerHeap.{parent, left_child}
use swift_corelibs_libdispat.TimerHeap.Index.{parent_lem, parent-left_child}
use swift_corelibs_libdispat.TimerHeap.Sift.{Timers, Sifted, heap_set, sift_down, smaller_child}
use swift_corelibs_libdispat.TimerHeap.Sift.Up.{
  fill, InHeap, Ordered, AboveOrdered, Bridged, keys, keys-heap_set, Open,
}

module _ (id count d' idx c : ℕ) (v : ℕ → ℕ) (child : InHeap id count c) (under : parent c ≡ idx)
    (after : idx < c) (few : count < 2 ^ 31) where
  down_Above :
      v c < d'
      → ((i : ℕ) → InHeap id count i → parent i ≡ idx → v c ≤ v i)
      → AboveOrdered id count idx (fill d' idx v)
      → Bridged id count idx v
      → AboveOrdered id count c (fill d' c (fill (v c) idx v))
  down_Above less least o g i h n =
      let (a, b, p) = parent_lem i h.0 (omega arith) in
      elim (ℕ_discrete i c) [
        | yes e ↦ ground (arith, less, under, ap parent e)
        | no m ↦ elim (ℕ_discrete (parent i) idx) [
          | yes e ↦ let x = least i h e in ground (arith, x)
          | no k ↦
              let x = o i h k in
              elim (ℕ_discrete i idx) [
                | yes e ↦
                    let y = g c child under (omega arith) in
                    ground (arith, y, ap parent e, ap v (ap parent e))
                | no l ↦ ground (arith, x)
              ]
        ]
      ]

  down_Bridged : AboveOrdered id count idx (fill d' idx v) → Bridged id count c (fill (v c) idx v)
  down_Bridged o i h e two =
      let (a, b, p) = parent_lem i h.0 (omega arith) in
      let x = o i h (omega arith) in ground (arith, x, under, ap v e)

module _ (key : ℕ → ℕ → ℕ) (id count dt : ℕ) (few : count < 2 ^ 31) where
  -- The child that is looked at is in the heap, and no child has a smaller key.
  pub record Least (idx c : ℕ) (h : Timers) : Type 0 where
    pub inside : InHeap id count c
    pub under : parent c ≡ idx
    pub double : 2 * idx < c
    pub least : (i : ℕ) → InHeap id count i → parent i ≡ idx → keys key id h c ≤ keys key id h i

  -- The children of an index
  children :
      (idx i : ℕ)
      → InHeap id count i
      → parent i ≡ idx
      → (i ≡ left_child idx) ⊎ (i ≡ left_child idx + 2)
  children idx i h e =
      let (a, b, c) = parent_lem i h.0 (omega arith) in
      let same = ap left_child e in
      elim c [ inl x ↦ inl (omega (arith, x, same)) | inr x ↦ inr (omega (arith, x, same)) ]

  small_idx :
      (i : ℕ) → i < count → left_child i < count → (left_child i ≡ 2 * i + 2 - i % 2) × (i < 2 ^ 30)
  unfolding left_child
  small_idx i c m = (omega arith, omega arith)

  left_child_lem :
      (idx : ℕ)
      → idx < count
      → left_child idx < count
      → (left_child idx ≡ 2 * idx + 2 - idx % 2)
        × (parent (left_child idx) ≡ idx)
        × (parent (left_child idx + 2) ≡ idx)
  left_child_lem idx b more =
      let small : (left_child idx ≡ 2 * idx + 2 - idx % 2) × (idx < 2 ^ 30) =
        small_idx idx b more in
      let (p, q) = parent-left_child idx small.1 in (small.0, p, q)

  pub smaller_child-Least :
      (idx : ℕ) (h : Timers)
      → idx < count
      → idx % 2 ≡ id
      → left_child idx < count
      → Least idx (smaller_child key id count dt idx h) h
  unfolding smaller_child
  smaller_child-Least idx h b q more =
      let l = left_child idx in
      let v = keys key id h in
      let (e, p, p2) = left_child_lem idx b more in
      let first : (l + 2 < count → v l ≤ v (l + 2)) → Least idx l h = λ small. record {
        inside = (omega (arith, e), more, omega (arith, e));
        under = p;
        double = omega (arith, e);
        least = λ i j u. elim (children idx i j u) [
          | inl x ↦ omega (arith, ap v x)
          | inr x ↦ let y = small (omega (arith, x, j.1)) in omega (arith, ap v x, y)
        ];
      } in
      elim (dec_lt (l + 2) count) [
        | no n ↦
            let t : ltb (l + 2) count ≡ false = ground arith in rw t (first (λ y. absurd (n y)))
        | yes y ↦
            let t : ltb (l + 2) count ≡ true = ground arith in
            elim (dec_lt (v (l + 2)) (v l)) [
              | no n ↦
                  let u : ltb (v (l + 2)) (v l) ≡ false = ground arith in
                  rw (t, u) (first (λ z. omega arith))
              | yes z ↦
                  let u : ltb (v (l + 2)) (v l) ≡ true = ground arith in
                  rw (t, u)
                    (record {
                      inside = (omega (arith, e), y, omega (arith, e));
                      under = p2;
                      double = omega (arith, e);
                      least = λ i j w. elim (children idx i j w) [
                        | inl x ↦ omega (arith, ap v x)
                        | inr x ↦ omega (arith, ap v x)
                      ];
                    })
            ]
      ]

  -- What sifting down ends with.
  pub record Settled (r : Sifted) : Type 0 where
    pub opened : Open key id count dt r.idx r.timers
    pub ordered : Ordered id count (fill (key id dt) r.idx (keys key id r.timers))

  pub sift_down-Settled :
      (fuel idx : ℕ) (h : Timers)
      → count / 2 ^ fuel ≤ idx
      → Open key id count dt idx h
      → AboveOrdered id count idx (fill (key id dt) idx (keys key id h))
      → Settled (sift_down key id count dt fuel idx h)
  unfolding sift_down
  sift_down-Settled zero idx h enough o a = absurd (omega (arith, o.bound))
  sift_down-Settled (suc fuel) idx h enough o a = elim (dec_lt (left_child idx) count) [
    | no n ↦
        let t : ltb (left_child idx) count ≡ false = ground arith in
        rw t (record {
          opened = o;
          ordered = λ i j. elim (ℕ_discrete (parent i) idx) [
            | no k ↦ a i j k
            | yes e ↦ elim (children idx i j e) [
              | inl x ↦ absurd (omega (arith, x, j.1))
              | inr x ↦ absurd (omega (arith, x, j.1))
            ]
          ];
        })
    | yes more ↦
        let t : ltb (left_child idx) count ≡ true = ground arith in
        let c = smaller_child key id count dt idx h in
        let l = smaller_child-Least idx h o.bound o.parity more in
        let v = keys key id h in
        elim (dec_lt (v c) (key id dt)) [
          | no n ↦
              let u : leb (key id dt) (v c) ≡ true = ground arith in
              rw (t, u)
                (record {
                  opened = o;
                  ordered = λ i j. elim (ℕ_discrete (parent i) idx) [
                    | no k ↦ a i j k
                    | yes e ↦
                        let x = l.least i j e in
                        let k : (parent i == idx) ≡ true = ground arith in
                        let m : (i == idx) ≡ false =
                          ground (arith, parent_lem i j.0 (omega (arith, j.1))) in
                        rw (k, m) (omega (arith, n, x))
                  ];
                })
          | yes less ↦
              let u : leb (key id dt) (v c) ≡ false = ground arith in
              let e : fill (v c) idx v ≡ keys key id (heap_set idx (h.slots c) h) =
                fun_ext (λ i. sym (keys-heap_set key id idx (h.slots c) h i)) in
              let half : count / 2 ^ suc fuel ≡ count / 2 ^ fuel / 2 =
                ap (λ (k : ℕ). count / k) (omega arith)
                ∙ sym (div-div-eq-div-mul count (2 ^ fuel) 2) in
              let after : idx < c = omega (arith, l.double) in
              let above =
                subst (λ (w : ℕ → ℕ). AboveOrdered id count c (fill (key id dt) c w)) e
                  (down_Above id count (key id dt) idx c v l.inside l.under after few less l.least a
                    o.bridged) in
              let across =
                subst (λ (w : ℕ → ℕ). Bridged id count c w) e
                  (down_Bridged id count (key id dt) idx c v l.inside l.under after few a) in
              rw (t, u)
                (sift_down-Settled fuel c (heap_set idx (h.slots c) h)
                  (omega (arith, enough, l.double, half))
                  (record {
                    bound = l.inside.1;
                    parity = l.inside.2;
                    loose = λ i j m k. above i j k;
                    bridged = across;
                  })
                  above)
        ]
  ]
