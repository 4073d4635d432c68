-- ===== src/Libraries/ContentSlots/Bounds.antt =====
-- The bounds of the slots, over any sequence of calls, and the slot that is kept for OCR.
use expediente.Base.{ℕ, ◌≤◌, ◌<◌, ◌≡◌, true, Option, none, some, arith, ◌+◌}
use expediente.Libraries.ContentSlots.{
  Concurrency, Lane, acquire_content, release_content, Slots, acquire_lane, acquire_ocr,
  acquire_native, native_limit, native_lane, ocr_lane,
}

-- The settings do not go beyond the given ones.
pub record AtMost (bound c : Concurrency) : Type 0 where
  pub native_le : c.native ≤ bound.native
  pub ocr_le : c.ocr ≤ bound.ocr
  pub total_le : c.total ≤ bound.total

abbrev pub AllAtMost : Concurrency → Option Concurrency → Type 0
AllAtMost bound none = Unit
AllAtMost bound (some c) = AtMost bound c

-- The calls of the workers, and the changes of the queue: a worker releases only a slot that it
-- acquired, so that the counter of the lane is positive.
abbrev pub active : Lane → Slots → ℕ
active native_lane r = r.native_active
active ocr_lane r = r.ocr_active

pub data Reachable (bound : Concurrency) : Slots → Type 0 where
  idle :
      {queue : ℕ}
      → Reachable bound (record { native_active = 0; ocr_active = 0; ocr_queue = queue })
  acquired :
      {r : Slots} (c : Option Concurrency) (lane : Lane) (index : ℕ)
      → AllAtMost bound c
      → Reachable bound r
      → Reachable bound (acquire_content c lane index r).1
  released :
      {r : Slots} (lane : Lane)
      → 0 < active lane r
      → Reachable bound r
      → Reachable bound (release_content lane r)
  queued :
      {r : Slots} (queue : ℕ) → Reachable bound r → Reachable bound (record r { ocr_queue = queue })

-- The counters stay below the settings.
pub record Bounded (bound : Concurrency) (r : Slots) : Type 0 where
  pub native_bound : r.native_active ≤ bound.native
  pub ocr_bound : r.ocr_active ≤ bound.ocr
  pub total_bound : r.native_active + r.ocr_active ≤ bound.total

acquire-Bounded :
    (bound c : Concurrency) (lane : Lane) (index : ℕ) (r : Slots)
    → AtMost bound c
    → Bounded bound r
    → Bounded bound (acquire_content (some c) lane index r).1
unfolding acquire_content acquire_lane acquire_ocr acquire_native
acquire-Bounded bound c ocr_lane index r most ok = ground arith
acquire-Bounded bound c native_lane index r most ok = ground arith

release-Bounded :
    (bound : Concurrency) (lane : Lane) (r : Slots)
    → Bounded bound r
    → Bounded bound (release_content lane r)
unfolding release_content
release-Bounded bound ocr_lane r ok = ground arith
release-Bounded bound native_lane r ok = ground arith

-- In every state that the workers can reach, from none active, by acquiring and releasing slots in
-- any order, with settings that may change but stay within the given ones, the native workers, the
-- OCR workers and their sum are within those settings.
pub reachable-Bounded : (bound : Concurrency) (r : Slots) → Reachable bound r → Bounded bound r
unfolding acquire_content
reachable-Bounded bound _ idle = record {
  native_bound = omega arith;
  ocr_bound = omega arith;
  total_bound = omega arith;
}
reachable-Bounded bound _ (acquired {r} none lane index most before) =
    reachable-Bounded bound r before
reachable-Bounded bound _ (acquired {r} (some c) lane index most before) =
    acquire-Bounded bound c lane index r most (reachable-Bounded bound r before)
reachable-Bounded bound _ (released {r} lane held before) =
    release-Bounded bound lane r (reachable-Bounded bound r before)
reachable-Bounded bound _ (queued {r} queue before) =
    let b = reachable-Bounded bound r before in
    record { native_bound = b.native_bound; ocr_bound = b.ocr_bound; total_bound = b.total_bound }

-- A release undoes the acquisition of a slot of its lane.
pub release-acquire :
    (c : Concurrency) (lane : Lane) (index : ℕ) (r s : Slots)
    → acquire_content (some c) lane index r ≡ (true, s)
    → release_content lane s ≡ r
unfolding acquire_content acquire_lane acquire_ocr acquire_native release_content
release-acquire c ocr_lane index r s h = ground arith
release-acquire c native_lane index r s h = ground arith

-- Native work cannot take the last slot from OCR: while OCR waits and none runs, with more than one
-- slot in all, behind any native acquisition an OCR worker of the lane still gets a slot.
pub acquire_native-reserves :
    (c : Concurrency) (index index' : ℕ) (r s : Slots)
    → 0 < r.ocr_queue
    → 1 < c.total
    → r.ocr_active ≡ 0
    → index' < c.ocr
    → acquire_content (some c) native_lane index r ≡ (true, s)
    → (acquire_content (some c) ocr_lane index' s).0 ≡ true
unfolding acquire_content acquire_lane acquire_ocr acquire_native native_limit
acquire_native-reserves c index index' r s waits many none_runs own h = ground arith
