-- ===== src/Tests/Memories.antt =====
-- Memory under the pattern of PointerPoison.
use elib.Base.{arith}
use elib.Mem.{Memory, poison_pointer}
use elib.Mem.Poison.{IsPoisoned, poison_pointer-IsPoisoned}

abbrev sevens : Memory
sevens i = 7

-- 31 bytes take a step of each width.
poison_pointer-IsPoisoned_example : IsPoisoned 31 sevens (poison_pointer 31 sevens)
poison_pointer-IsPoisoned_example = poison_pointer-IsPoisoned 31 sevens (omega arith)
