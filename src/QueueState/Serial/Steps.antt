-- ===== src/QueueState/Serial/Steps.antt =====
-- Each step in the life of a serial queue keeps its invariant (src/queue.c, src/inline_internal.h).
use swift_corelibs_libdispat.Common.{
  ℕ, ◌+◌, ◌^◌, ◌<◌, ◌≡◌, inl, inr, refl, arith, true, false, leb, Option, none, some,
}
use swift_corelibs_libdispat.Common.Bits.{field}
use swift_corelibs_libdispat.QueueState.{suspend_interval}
use swift_corelibs_libdispat.QueueState.Serial.{
  Drainer, none_draining, invoking, draining, popping, unlocking, finishing, in_sync,
  sync_unlocking, completing, handing_over, SerialQueue, is_drained, lane_push, lane_wakeup,
  queue_wakeup, Access, pushes, probes, wakes, overrides, invokes, drains, ends, syncs, ends_sync,
  suspends, resumes, suspend, resume, after_resume, serial, step, CanTake,
}
use swift_corelibs_libdispat.QueueState.Serial.Words.{Held}
use swift_corelibs_libdispat.QueueState.Serial.Resume.{
  suspend-Free, suspend-Held, resume-Free, resume-Held,
}
use swift_corelibs_libdispat.QueueState.Serial.Invariant.{AtRest, Drained, InSync, Place, Inv}
use swift_corelibs_libdispat.Suspend.{suspend_pass, resume_update}
use swift_corelibs_libdispat.QueueState.Serial.Wakes.{
  push-Place, probe-Place, wakes-Place, unmoved, invokes-Place,
}
use swift_corelibs_libdispat.QueueState.Serial.Drain.{
  drains-Place, ends-Place, syncs-Place, ends_sync-Place,
}

suspend-AtRest :
    (s n : ℕ) → s + suspend_interval < 2 ^ 64 → AtRest s n → AtRest (s + suspend_interval) n
suspend-AtRest s n h p =
    let (f, b) = suspend-Free s p.free h in
    let o = p.on_target_once in record { free = f; on_target_once = omega arith }

suspend-InSync :
    (s n : ℕ) → s + suspend_interval < 2 ^ 64 → InSync s n → InSync (s + suspend_interval) n
suspend-InSync s n h p =
    let (f, b) = suspend-Held s p.held h in
    let o = p.on_target_once in record { held = f; on_target_once = omega arith }

suspend-Drained :
    (owned s n : ℕ)
    → s + suspend_interval < 2 ^ 64
    → Drained owned s n
    → Drained owned (s + suspend_interval) n
suspend-Drained owned s n h p =
    let (f, b) = suspend-Held s p.held h in
    let e = p.enqueued in
    record { held = f; serial = p.serial; enqueued = omega arith; off_target = p.off_target }

-- A suspended queue needs nobody to see to its items.
suspends-Place :
    (d : Drainer) (l : SerialQueue)
    → l.dq_state + suspend_interval < 2 ^ 64
    → Place d l
    → Place d (record l { dq_state = l.dq_state + suspend_interval })
suspends-Place none_draining l h (p, s) =
    (suspend-AtRest l.dq_state l.on_target h p, λ k i. omega arith)
suspends-Place (invoking o) l h p = suspend-Drained o l.dq_state l.on_target h p
suspends-Place (draining o) l h p = suspend-Drained o l.dq_state l.on_target h p
suspends-Place (popping o) l h p = suspend-Drained o l.dq_state l.on_target h p
suspends-Place (unlocking o) l h (p, s) =
    (suspend-Drained o l.dq_state l.on_target h p, λ k i. omega arith)
suspends-Place (finishing o) l h p = suspend-Drained o l.dq_state l.on_target h p
suspends-Place in_sync l h p = suspend-InSync l.dq_state l.on_target h p
suspends-Place sync_unlocking l h (p, s) =
    (suspend-InSync l.dq_state l.on_target h p, λ k i. omega arith)
suspends-Place (completing b) l h (p, q) = (suspend-InSync l.dq_state l.on_target h p, q)
suspends-Place (handing_over b true) l h (p, q) = (suspend-InSync l.dq_state l.on_target h p, q)
suspends-Place (handing_over b false) l h (p, q, s) =
    (suspend-InSync l.dq_state l.on_target h p, q, λ k i. omega arith)

suspend_lem :
    (l : SerialQueue)
    → l.dq_state + suspend_interval < 2 ^ 64
    → suspend l ≡ record l { dq_state = l.dq_state + suspend_interval }
unfolding suspend suspend_pass
suspend_lem l h =
    let e : leb (2 ^ 64) (l.dq_state + suspend_interval) ≡ false = ground arith in rw e refl

-- A resume of a queue that is drained marks it as dirty.
resumed-Place :
    (tid new : ℕ) (d : Drainer) (l : SerialQueue)
    → is_drained d ≡ true
    → resume_update (serial tid) l.dq_state ≡ some new
    → Place d l
    → Place d (record l { dq_state = new })
resumed-Place tid new none_draining l x e p = ground arith
resumed-Place tid new (invoking o) l x e p =
    let (f, w, y, r) = resume-Held tid l.dq_state new p.held e in
    let u = p.enqueued in
    record { held = f; serial = p.serial; enqueued = omega arith; off_target = p.off_target }
resumed-Place tid new (draining o) l x e p =
    let (f, w, y, r) = resume-Held tid l.dq_state new p.held e in
    let u = p.enqueued in
    record { held = f; serial = p.serial; enqueued = omega arith; off_target = p.off_target }
resumed-Place tid new (popping o) l x e p =
    let (f, w, y, r) = resume-Held tid l.dq_state new p.held e in
    let u = p.enqueued in
    record { held = f; serial = p.serial; enqueued = omega arith; off_target = p.off_target }
resumed-Place tid new (unlocking o) l x e p =
    let (f, w, y, r) = resume-Held tid l.dq_state new p.0.held e in
    let u = p.0.enqueued in
    (
      record { held = f; serial = p.0.serial; enqueued = omega arith; off_target = p.0.off_target },
      λ k i. omega arith,
    )
resumed-Place tid new (finishing o) l x e p =
    let (f, w, y, r) = resume-Held tid l.dq_state new p.held e in
    let u = p.enqueued in
    record { held = f; serial = p.serial; enqueued = omega arith; off_target = p.off_target }
resumed-Place tid new in_sync l x e p =
    let (f, w, y, r) = resume-Held tid l.dq_state new p.held e in
    let u = p.on_target_once in record { held = f; on_target_once = omega arith }
resumed-Place tid new sync_unlocking l x e p =
    let (f, w, y, r) = resume-Held tid l.dq_state new p.0.held e in
    let u = p.0.on_target_once in
    (record { held = f; on_target_once = omega arith }, λ k i. omega arith)
resumed-Place tid new (completing b) l x e p =
    let (f, w, y, r) = resume-Held tid l.dq_state new p.0.held e in
    let u = p.0.on_target_once in (record { held = f; on_target_once = omega arith }, p.1)
resumed-Place tid new (handing_over b true) l x e p =
    let (f, w, y, r) = resume-Held tid l.dq_state new p.0.held e in
    let u = p.0.on_target_once in (record { held = f; on_target_once = omega arith }, p.1)
resumed-Place tid new (handing_over b false) l x e p =
    let (f, w, y, r) = resume-Held tid l.dq_state new p.0.held e in
    let u = p.0.on_target_once in
    (record { held = f; on_target_once = omega arith }, p.1, λ k i. omega arith)

resumes_none-Inv :
    (tid : ℕ) (l : SerialQueue) (o : Option ℕ)
    → 0 < field 0 30 tid
    → l.drainer ≡ none_draining
    → l.clash ≡ false
    → Place none_draining l
    → resume_update (serial tid) l.dq_state ≡ o
    → Inv (after_resume l o)
resumes_none-Inv tid l none t e c p x = unmoved l e c p
resumes_none-Inv tid l (some new) t e c (p, s) x =
    let (b, cases) = resume-Free tid l.dq_state new t p.free x in
    let o = p.on_target_once in
    elim cases [
      | inl (f, k, r) ↦ rw r (
          unmoved (record l { dq_state = new }) e c
            (record { free = f; on_target_once = omega arith }, λ u i. omega arith))
      | inr (f, r) ↦ rw r (record {
        alone = ground arith;
        place = (record { held = f; on_target_once = omega arith }, omega arith);
      })
    ]

resumes_in_use-Inv :
    (tid : ℕ) (d : Drainer) (l : SerialQueue) (o : Option ℕ)
    → is_drained d ≡ true
    → Held l.dq_state
    → l.drainer ≡ d
    → l.clash ≡ false
    → Place d l
    → resume_update (serial tid) l.dq_state ≡ o
    → Inv (after_resume l o)
resumes_in_use-Inv tid d l none y h e c p x = unmoved l e c p
resumes_in_use-Inv tid d l (some new) y h e c p x =
    let (f, b, z, cases) = resume-Held tid l.dq_state new h x in
    let q = unmoved (record l { dq_state = new }) e c (resumed-Place tid new d l y x p) in
    elim cases [ inl r ↦ rw r q | inr r ↦ rw r q ]

resumes-Place :
    (tid : ℕ) (d : Drainer) (l : SerialQueue)
    → 0 < field 0 30 tid
    → l.drainer ≡ d
    → l.clash ≡ false
    → Place d l
    → Inv (resume tid l)
unfolding resume
resumes-Place tid none_draining l t e c p =
    resumes_none-Inv tid l (resume_update (serial tid) l.dq_state) t e c p refl
resumes-Place tid (invoking o) l t e c p =
    resumes_in_use-Inv tid (invoking o) l (resume_update (serial tid) l.dq_state) refl p.held e c p
      refl
resumes-Place tid (draining o) l t e c p =
    resumes_in_use-Inv tid (draining o) l (resume_update (serial tid) l.dq_state) refl p.held e c p
      refl
resumes-Place tid (popping o) l t e c p =
    resumes_in_use-Inv tid (popping o) l (resume_update (serial tid) l.dq_state) refl p.held e c p
      refl
resumes-Place tid (unlocking o) l t e c p =
    resumes_in_use-Inv tid (unlocking o) l (resume_update (serial tid) l.dq_state) refl p.0.held e c
      p refl
resumes-Place tid (finishing o) l t e c p =
    resumes_in_use-Inv tid (finishing o) l (resume_update (serial tid) l.dq_state) refl p.held e c p
      refl
resumes-Place tid in_sync l t e c p =
    resumes_in_use-Inv tid in_sync l (resume_update (serial tid) l.dq_state) refl p.held e c p refl
resumes-Place tid sync_unlocking l t e c p =
    resumes_in_use-Inv tid sync_unlocking l (resume_update (serial tid) l.dq_state) refl p.0.held e
      c p refl
resumes-Place tid (completing b) l t e c p =
    resumes_in_use-Inv tid (completing b) l (resume_update (serial tid) l.dq_state) refl p.0.held e
      c p refl
resumes-Place tid (handing_over b true) l t e c p =
    resumes_in_use-Inv tid (handing_over b true) l (resume_update (serial tid) l.dq_state) refl
      p.0.held e c p refl
resumes-Place tid (handing_over b false) l t e c p =
    resumes_in_use-Inv tid (handing_over b false) l (resume_update (serial tid) l.dq_state) refl
      p.0.held e c p refl

pub step-Inv : (a : Access) (l : SerialQueue) → CanTake a l → Inv l → Inv (step a l)
unfolding step lane_push lane_wakeup queue_wakeup
step-Inv pushes l h v = record { alone = v.alone; place = push-Place l.drainer l v.place }
step-Inv probes l h v = record { alone = v.alone; place = probe-Place l.drainer l h v.place }
step-Inv (wakes q) l (h, b) v = record {
  alone = v.alone;
  place = wakes-Place true q l.drainer l b v.place;
}
step-Inv (overrides q) l b v = record {
  alone = v.alone;
  place = wakes-Place false q l.drainer l b v.place;
}
step-Inv (invokes tid floor) l (h, t) v =
    invokes-Place tid floor l.drainer l h t refl v.alone v.place
step-Inv (drains stops) l h v = drains-Place stops l.drainer l refl v.alone v.place
step-Inv (ends on_root) l h v = ends-Place on_root l.drainer l refl v.alone v.place
step-Inv (syncs tid) l t v = syncs-Place tid l.drainer l t refl v.alone v.place
step-Inv ends_sync l h v = ends_sync-Place l.drainer l refl v.alone v.place
step-Inv suspends l h v =
    rw (suspend_lem l h) (record { alone = v.alone; place = suspends-Place l.drainer l h v.place })
step-Inv (resumes tid) l (h, t) v = resumes-Place tid l.drainer l t refl v.alone v.place
