-- ===== src/Attention/Resources/Class.antt =====
-- `ExecutionResourceClass` of attention_resources.py, with its equality and its declaration order.
use prometheist.Base.{ℕ, ◌≡◌, ◌↔◌, Bool, true, nat_eq, Eq, arith}

pub data ResourceClass : Type 0 where
  cpu_general memory_ram llm_inference database filesystem_io network_io : ResourceClass

-- _RESOURCE_CLASS_ORDER[resource_class]
abbrev pub resource_class_sort_key : ResourceClass → ℕ
resource_class_sort_key cpu_general = 0
resource_class_sort_key memory_ram = 1
resource_class_sort_key llm_inference = 2
resource_class_sort_key database = 3
resource_class_sort_key filesystem_io = 4
resource_class_sort_key network_io = 5

abbrev pub class_beq : ResourceClass → ResourceClass → Bool
class_beq c d = nat_eq (resource_class_sort_key c) (resource_class_sort_key d)

-- The declaration order tells classes apart.
pub class_beq_iff : (c d : ResourceClass) → (class_beq c d ≡ true) ↔ (c ≡ d)
class_beq_iff c d = ground arith

instance abbrev pub ResourceClass_eq : Eq ResourceClass
ResourceClass_eq = record { beq = class_beq; beq_iff = class_beq_iff }
