-- ===== src/DynamicAllocator/Tests.antt =====
-- The dynamic allocator's theorems at a concrete size and a concrete page.
use first_os.Base.{refl, [], ◌++◌, arith}
use first_os.DList.{Memory, linked_list_init}
use first_os.DList.Insert.{linked_list_init-IsList}
use first_os.DynamicAllocator.{carve_loop}
use first_os.DynamicAllocator.Pools.{Carved, multiples, carve_loop-IsList}

abbrev blank : Memory
blank a = record { prev = 0; next = 0 }

carve_loop-IsList_example :
    Carved
      (carve_loop 256 512 0x80100000 512 linked_list_init blank)
      ([] ++ multiples 0x80100000 512 1 7)
carve_loop-IsList_example =
    carve_loop-IsList 512 7 0x80100000 [] linked_list_init blank (linked_list_init-IsList blank)
      refl (omega arith) (omega arith) (omega arith) (omega arith)
      (refl, (refl, (refl, (refl, (refl, (refl, (refl, tt)))))))
