-- ===== src/Libraries/Tests.antt =====
-- Runs of the parts of internal/libraries.
pub mod Archive
pub mod Workers
pub mod Reviews
use expediente.Base.{◌≡◌, refl, true, some, arith}
use expediente.Libraries.ContentSlots.{
  Concurrency, Slots, acquire_content, release_content, acquire_lane, ocr_lane, native_lane,
  acquire_native, native_limit,
}
use expediente.Libraries.ContentSlots.Bounds.{
  AtMost, Reachable, Bounded, acquired, reachable-Bounded, idle, release-acquire,
  acquire_native-reserves,
}

abbrev settings : Concurrency
settings = record { native = 3; ocr = 2; total = 3 }

abbrev two_native : Slots
two_native = record { native_active = 2; ocr_active = 0; ocr_queue = 4 }

abbrev one_native : Slots
one_native = record { native_active = 1; ocr_active = 0; ocr_queue = 4 }

second_native : acquire_content (some settings) native_lane 2 one_native ≡ (true, two_native)
unfolding acquire_content acquire_lane acquire_native native_limit
second_native = refl

settings_hold : AtMost settings settings
settings_hold = record { native_le = omega arith; ocr_le = omega arith; total_le = omega arith }

abbrev busy : Slots
busy =
    (acquire_content (some settings) ocr_lane 1
      (acquire_content (some settings) native_lane 0
        (record { native_active = 0; ocr_active = 0; ocr_queue = 4 })).1).1

busy_reachable : Reachable settings busy
busy_reachable =
    acquired (some settings) ocr_lane 1 settings_hold
      (acquired (some settings) native_lane 0 settings_hold idle)

reachable-Bounded_example : Bounded settings busy
reachable-Bounded_example = reachable-Bounded settings busy busy_reachable

release-acquire_example : release_content native_lane two_native ≡ one_native
release-acquire_example = release-acquire settings native_lane 2 one_native two_native second_native

acquire_native-reserves_example : (acquire_content (some settings) ocr_lane 1 two_native).0 ≡ true
acquire_native-reserves_example =
    acquire_native-reserves settings 2 1 one_native two_native (omega arith) (omega arith) refl
      (omega arith) second_native
