-- ===== src/Objects/Steps.antt =====
-- Each call keeps the invariant of the reference counts (src/object.c, src/inline_internal.h).
use swift_corelibs_libdispat.Common.{ℕ, arith}
use swift_corelibs_libdispat.Objects.{
  retain, released, release, retain_with_resurrect, retain_weak, retain_internal, release_internal,
  release_no_dispose, System, Call, retains, releases, resurrects, weakly_retains, retains_internal,
  releases_internal, releases_no_dispose, finishes_resurrection, finishes_xref_dispose, call,
  MayCall,
}
use swift_corelibs_libdispat.Objects.Invariant.{Inv}

retains-Inv : (s : System) → MayCall retains s → Inv s → Inv (call retains s)
unfolding call retain
retains-Inv s (a, b) v = ground arith

releases-Inv : (s : System) → MayCall releases s → Inv s → Inv (call releases s)
unfolding call release released
releases-Inv s a v = ground arith

resurrects-Inv : (s : System) → MayCall resurrects s → Inv s → Inv (call resurrects s)
unfolding call retain_with_resurrect
resurrects-Inv s (a, b) v = ground arith

weakly_retains-Inv : (s : System) → MayCall weakly_retains s → Inv s → Inv (call weakly_retains s)
unfolding call retain_weak
weakly_retains-Inv s (a, b) v = ground arith

retains_internal-Inv :
    (n : ℕ) (s : System)
    → MayCall (retains_internal n) s
    → Inv s
    → Inv (call (retains_internal n) s)
unfolding call retain_internal
retains_internal-Inv n s (a, b) v = ground arith

releases_internal-Inv :
    (n : ℕ) (s : System)
    → MayCall (releases_internal n) s
    → Inv s
    → Inv (call (releases_internal n) s)
unfolding call release_internal released
releases_internal-Inv n s (a, b) v = ground arith

releases_no_dispose-Inv :
    (n : ℕ) (s : System)
    → MayCall (releases_no_dispose n) s
    → Inv s
    → Inv (call (releases_no_dispose n) s)
unfolding call release_no_dispose
releases_no_dispose-Inv n s (a, b) v = ground arith

finishes_resurrection-Inv :
    (s : System) → MayCall finishes_resurrection s → Inv s → Inv (call finishes_resurrection s)
unfolding call retain_internal
finishes_resurrection-Inv s (a, b) v = ground arith

finishes_xref_dispose-Inv :
    (s : System) → MayCall finishes_xref_dispose s → Inv s → Inv (call finishes_xref_dispose s)
unfolding call release_internal released
finishes_xref_dispose-Inv s a v = ground arith

pub call-Inv : (c : Call) (s : System) → MayCall c s → Inv s → Inv (call c s)
call-Inv retains s = retains-Inv s
call-Inv releases s = releases-Inv s
call-Inv resurrects s = resurrects-Inv s
call-Inv weakly_retains s = weakly_retains-Inv s
call-Inv (retains_internal n) s = retains_internal-Inv n s
call-Inv (releases_internal n) s = releases_internal-Inv n s
call-Inv (releases_no_dispose n) s = releases_no_dispose-Inv n s
call-Inv finishes_resurrection s = finishes_resurrection-Inv s
call-Inv finishes_xref_dispose s = finishes_xref_dispose-Inv s
