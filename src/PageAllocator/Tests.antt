-- ===== src/PageAllocator/Tests.antt =====
-- The page allocator's theorems at concrete regions and blocks.
use first_os.Base.{ℕ, ◌+◌, ◌≡◌, refl, some, [], ◌∷◌, arith, replicate}
use first_os.DList.{linked_list_init}
use first_os.PageAllocator.{
  MemoryRegion, PageAllocator, find_overlap, frame_array_loop, allocate_frame_array,
}
use first_os.PageAllocator.Blocks.{buddy_of}
use first_os.PageAllocator.Frames.{FoundFrames, allocate_frame_array-FoundFrames}
use first_os.PageAllocator.Buddy.{IsBlock, BuddyOf, buddy_of-BuddyOf}

abbrev region : ℕ → ℕ → MemoryRegion
region addr size = record { addr = addr; size = size }

-- 128 MiB, whose start and a part behind it are reserved.
abbrev at_boot : PageAllocator
at_boot = record {
  available_memory = region 0x80000000 0x8000000 ∷ [];
  reserved_memory =
      region 0x82000000 0x1000 ∷ region 0x80000000 0x80000 ∷ region 0x80080000 0x2000 ∷ [];
  frame_array = [];
  orders_lists = replicate 22 linked_list_init;
  memory_base_addr = 0x80000000;
  nodes = λ a. record { prev = 0; next = 0 };
}

allocate_frame_array_run : allocate_frame_array at_boot 98304 ≡ some 0x80082000
unfolding allocate_frame_array frame_array_loop find_overlap
allocate_frame_array_run = refl

allocate_frame_array-FoundFrames_example :
    FoundFrames at_boot.reserved_memory 98304
      (0x80000000 + 0x8000000)
      0x80000000
      (allocate_frame_array at_boot 98304)
allocate_frame_array-FoundFrames_example =
    allocate_frame_array-FoundFrames at_boot 98304 (omega arith, (omega arith, (omega arith, tt)))
      (omega arith) (omega arith)

IsBlock-at : IsBlock 0x80000000 2 0x8000c000
IsBlock-at = record { index = 3; at = refl }

buddy_of-BuddyOf_example : BuddyOf 0x80000000 2 0x8000c000 (buddy_of at_boot 0x8000c000 2)
buddy_of-BuddyOf_example =
    buddy_of-BuddyOf at_boot 2 0x8000c000 (omega arith) IsBlock-at (omega arith)
