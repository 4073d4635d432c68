-- ===== src/Libraries/ContentSlots.antt =====
-- internal/libraries/ocr_workers.go, acquireContent and releaseContent: the slots that the workers
-- of native and of OCR extraction share, with the lock held throughout. The settings are read anew
-- at each call, and `none` is an error of that query.
pub mod Bounds
use expediente.Base.{
  ℕ, ◌+◌, ◌-◌, Bool, true, false, ◌&&◌, ◌||◌, ◌==◌, ℕ_eq, leb, ltb, if◌then◌else◌, Option, none,
  some,
}

-- The `Effective` settings of `extraction.Concurrency`.
pub record Concurrency : Type 0 where
  pub native : ℕ
  pub ocr : ℕ
  pub total : ℕ

-- The counters, and the length of the channel `ocrQueue`.
pub record Slots : Type 0 where
  pub native_active : ℕ
  pub ocr_active : ℕ
  pub ocr_queue : ℕ

pub data Lane : Type 0 where
  native_lane ocr_lane : Lane

-- While OCR waits and none runs, one slot is kept for it.
unfoldable pub native_limit : Concurrency → Slots → ℕ
native_limit c r =
    if ltb 0 r.ocr_queue && ltb 1 c.total && r.ocr_active == 0 then c.total - 1 else c.total

unfoldable pub acquire_ocr : Concurrency → ℕ → Slots → Bool × Slots
acquire_ocr c index r =
    if leb c.ocr index || leb c.ocr r.ocr_active
    then (false, r)
    else (true, record r { ocr_active = r.ocr_active + 1 })

unfoldable pub acquire_native : Concurrency → ℕ → Slots → Bool × Slots
acquire_native c index r =
    if leb c.native index
      || leb c.native r.native_active
      || leb (native_limit c r) (r.native_active + r.ocr_active)
    then (false, r)
    else (true, record r { native_active = r.native_active + 1 })

unfoldable pub acquire_lane : Concurrency → Lane → ℕ → Slots → Bool × Slots
acquire_lane c ocr_lane index r = acquire_ocr c index r
acquire_lane c native_lane index r = acquire_native c index r

-- `acquireContent`
unfoldable pub acquire_content : Option Concurrency → Lane → ℕ → Slots → Bool × Slots
acquire_content none lane index r = (false, r)
acquire_content (some c) lane index r =
    if leb c.total (r.native_active + r.ocr_active) then (false, r) else acquire_lane c lane index r

-- `releaseContent`
unfoldable pub release_content : Lane → Slots → Slots
release_content ocr_lane r = record r { ocr_active = r.ocr_active - 1 }
release_content native_lane r = record r { native_active = r.native_active - 1 }
