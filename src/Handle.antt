-- ===== src/Handle.antt =====
-- common/src/common.c and common/inc/common_types.h: the handles of trees and hash tables, which
-- are indices into the array `p_trees`. `none` is an access outside the array.
pub mod Retrieve
mod Tests
use morning_projects.Common.{
  ℕ, ◌+◌, ◌*◌, ◌%◌, ◌^◌, Option, none, some, List, [], ◌∷◌, ltb, ◌==◌, if◌then◌else◌, ◌>>=◌,
}

abbrev pub Ptr : Type 0
Ptr = ℕ

abbrev pub max_objects : ℕ
max_objects = 128

-- HANDLE_BASE_TREE
abbrev pub handle_base : ℕ
handle_base = 2 ^ 28

-- the `counter` of `COMMON_handle_create`, a `uint8_t`, and `p_trees`
pub record Handles : Type 0 where
  pub counter : ℕ
  pub objects : ℕ → Ptr

-- `COMMON_handle_create`: the handle is a `uint8_t`. HANDLE_BASE_TREE and the counter have no bit in
-- common, so `|` adds them.
unfoldable pub handle_create : Handles → Ptr → Option (ℕ × Handles)
handle_create s ptr =
    if ltb s.counter max_objects
    then some (
      (handle_base + s.counter) % 2 ^ 8,
      record {
        counter = (s.counter + 1) % 2 ^ 8;
        objects = λ i. if i == s.counter then ptr else s.objects i;
      },
    )
    else none

-- `COMMON_object_retrieve`: the mask HANDLE_COUNTER_MASK keeps the low eight bits
unfoldable pub object_retrieve : Handles → ℕ → Option Ptr
object_retrieve s handle =
    if ltb (handle % 2 ^ 8) max_objects then some (s.objects (handle % 2 ^ 8)) else none
