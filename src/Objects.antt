-- ===== src/Objects.antt =====
-- The reference counts of objects: src/object.c, src/object_internal.h, src/inline_internal.h and, for what
-- the last reference leads to, src/init.c. An object counts the references that the client has and those
-- that the library has; each count is a 32-bit signed integer, one less than the number of references, and
-- the client's references together hold one of the library's. A function of the code is one atomic update of a
-- count and what follows from the value that it gives. How many references there are is kept beside, with
-- the calls that are between the update of the one count and that of the other; the code keeps none of
-- this.
mod Invariant
mod Steps
mod Safety
mod Tests
use swift_corelibs_libdispat.Common.{
  ℕ, ◌+◌, ◌-◌, ◌%◌, ◌^◌, ◌≤◌, ◌<◌, ◌≡◌, Bool, true, false, leb, ◌==◌, if◌then◌else◌,
}

-- os_obj_xref_cnt and os_obj_ref_cnt, as words of 32 bits
pub record Object : Type 0 where
  pub xref_cnt : ℕ
  pub ref_cnt : ℕ

-- _OS_OBJECT_GLOBAL_REFCNT, which is INT_MAX
abbrev pub global_refcnt : ℕ
global_refcnt = 2 ^ 31 - 1

-- Is the integer negative?
abbrev pub negative : ℕ → Bool
negative w = leb (2 ^ 31) w

abbrev pub minus_one : ℕ
minus_one = 2 ^ 32 - 1

-- `_os_atomic_refcnt_add_orig2o` and `_os_atomic_refcnt_sub2o`: the new value of the count
abbrev pub refcnt_add : ℕ → ℕ → ℕ
refcnt_add n w = if w == global_refcnt then w else (w + n) % 2 ^ 32

abbrev pub refcnt_sub : ℕ → ℕ → ℕ
refcnt_sub n w = if w == global_refcnt then w else (w + (2 ^ 32 - n)) % 2 ^ 32

-- The object that a function leaves, and where it goes on.
pub data Outcome : Type 0 where
  done : (o : Object) → Outcome
  refused : Outcome  -- `_os_object_retain_weak` returns false
  at_xref_dispose at_dispose at_retain_internal : (o : Object) → Outcome
  crash : Outcome

-- `_os_object_retain`
pub retain : Object → Outcome
retain o =
    if negative o.xref_cnt then crash else done (record o { xref_cnt = refcnt_add 1 o.xref_cnt })

-- What follows from a count that was decremented: nothing, the disposal, or a crash.
pub released : ℕ → Outcome → Outcome → Outcome
released w last more = if negative w then (if w == minus_one then last else crash) else more

-- `_os_object_release`
pub release : Object → Outcome
unfolding released
release o =
    let after : Object = record o { xref_cnt = refcnt_sub 1 o.xref_cnt } in
    released after.xref_cnt (at_xref_dispose after) (done after)

-- `_os_object_retain_with_resurrect`
pub retain_with_resurrect : Object → Outcome
retain_with_resurrect o =
    let xref_cnt : ℕ = (o.xref_cnt + 1) % 2 ^ 32 in
    let after : Object = record o { xref_cnt = refcnt_add 1 o.xref_cnt } in
    if negative xref_cnt
    then crash
    else (if xref_cnt == 0 then at_retain_internal after else done after)

-- `_os_object_retain_weak`
pub retain_weak : Object → Outcome
retain_weak o =
    if o.xref_cnt == global_refcnt
    then done o
    else (if negative o.xref_cnt
        then (if o.xref_cnt == minus_one then refused else crash)
        else done (record o { xref_cnt = (o.xref_cnt + 1) % 2 ^ 32 }))

-- `_os_object_retain_internal_n_inline`
pub retain_internal : ℕ → Object → Outcome
retain_internal n o =
    if negative o.ref_cnt then crash else done (record o { ref_cnt = refcnt_add n o.ref_cnt })

-- `_os_object_release_internal_n_inline`
pub release_internal : ℕ → Object → Outcome
unfolding released
release_internal n o =
    let after : Object = record o { ref_cnt = refcnt_sub n o.ref_cnt } in
    released after.ref_cnt (at_dispose after) (done after)

-- `_os_object_release_internal_n_no_dispose_inline`
pub release_no_dispose : ℕ → Object → Outcome
release_no_dispose n o =
    let after : Object = record o { ref_cnt = refcnt_sub n o.ref_cnt } in
    if negative after.ref_cnt then crash else done after

-- `_os_object_xref_dispose`: the hook that a type may have in its place ends in the same release.
abbrev pub xref_dispose : Object → Outcome
xref_dispose o = release_internal 1 o

-- `_os_object_retain_count`: the count is extended with its sign to an unsigned long.
abbrev pub retain_count : Object → ℕ
retain_count o =
    let n : ℕ = (o.xref_cnt + 1) % 2 ^ 32 in
    if o.xref_cnt == global_refcnt
    then 2 ^ 64 - 1
    else (if negative n then n + (2 ^ 64 - 2 ^ 32) else n)

-- An object with its references: those of the client and of the library, the calls that are in
-- `_os_object_xref_dispose`, those that have resurrected the client's count and not yet retained the
-- library's, and how often the object was disposed of.
pub record System : Type 0 where
  pub object : Object
  pub xrefs : ℕ
  pub refs : ℕ
  pub dying : ℕ
  pub resurrecting : ℕ
  pub disposals : ℕ
  pub crashed : Bool

-- The system after a function with the outcome, if `s` has the references that it leaves
abbrev pub settle : Outcome → System → System
settle (done o) s = record s { object = o }
settle refused s = s
settle (at_xref_dispose o) s = record s { object = o; dying = s.dying + 1 }
settle (at_dispose o) s = record s { object = o; disposals = s.disposals + 1 }
settle (at_retain_internal o) s = record s { object = o; resurrecting = s.resurrecting + 1 }
settle crash s = record s { crashed = true }

-- A weak retain adds a reference if it is not refused.
abbrev pub gained : Outcome → ℕ
gained refused = 0
gained _ = 1

pub data Call : Type 0 where
  retains releases resurrects weakly_retains : Call
  retains_internal releases_internal releases_no_dispose : (n : ℕ) → Call
  finishes_resurrection finishes_xref_dispose : Call

unfoldable pub call : Call → System → System
unfolding retain release retain_with_resurrect retain_weak retain_internal release_internal
    release_no_dispose
call retains s = settle (retain s.object) (record s { xrefs = s.xrefs + 1 })
call releases s = settle (release s.object) (record s { xrefs = s.xrefs - 1 })
call resurrects s = settle (retain_with_resurrect s.object) (record s { xrefs = s.xrefs + 1 })
call weakly_retains s =
    settle (retain_weak s.object) (record s { xrefs = s.xrefs + gained (retain_weak s.object) })
call (retains_internal n) s = settle (retain_internal n s.object) (record s { refs = s.refs + n })
call (releases_internal n) s = settle (release_internal n s.object) (record s { refs = s.refs - n })
call (releases_no_dispose n) s =
    settle (release_no_dispose n s.object) (record s { refs = s.refs - n })
call finishes_resurrection s =
    settle (retain_internal 1 s.object) (record s { resurrecting = s.resurrecting - 1 })
call finishes_xref_dispose s = settle (xref_dispose s.object) (record s { dying = s.dying - 1 })

-- What the client's references hold of the library's
abbrev pub share : ℕ → ℕ
share xrefs = if xrefs == 0 then 0 else 1

-- What a caller has to see to: it has the references that it gives back, or one to retain more by, and
-- keeps one of the library's for a resurrection; a weak retain needs the memory. A count stays below
-- INT_MAX, which would make the object a global one.
abbrev pub MayCall : Call → System → Type 0
MayCall retains s = (0 < s.xrefs) × (s.xrefs + 1 < 2 ^ 31)
MayCall releases s = s.resurrecting < s.xrefs
MayCall resurrects s = (s.resurrecting < s.refs) × (s.xrefs + 1 < 2 ^ 31)
MayCall weakly_retains s = (s.disposals ≡ 0) × (s.xrefs + 1 < 2 ^ 31)
MayCall (retains_internal n) s =
    (0 < s.refs + s.xrefs + s.dying) × (s.refs + s.dying + n + 1 < 2 ^ 31)
MayCall (releases_internal n) s = (0 < n) × (s.resurrecting + n ≤ s.refs)
MayCall (releases_no_dispose n) s =
    (s.resurrecting + n ≤ s.refs) × (s.resurrecting + n < s.refs + s.dying + share s.xrefs)
MayCall finishes_resurrection s = (0 < s.resurrecting) × (s.refs + s.dying + 2 < 2 ^ 31)
MayCall finishes_xref_dispose s = 0 < s.dying

-- `_os_object_alloc_realized`: an object has one reference of its client.
abbrev pub alloc : System
alloc = record {
  object = record { xref_cnt = 0; ref_cnt = 0 };
  xrefs = 1;
  refs = 0;
  dying = 0;
  resurrecting = 0;
  disposals = 0;
  crashed = false;
}

pub data Reach : System → Type 0 where
  start : Reach alloc
  after : {s : System} → Reach s → (c : Call) → MayCall c s → Reach (call c s)
