-- ===== src/Attention/Resources/Valid.antt =====
-- What the constructor of `ExecutionResource` has tested where it leaves a pool as it is.
use prometheist.Base.{◌≤◌, ◌≡◌, false, ok, is_blank, strip, arith}
use prometheist.Attention.Resources.Defs.{
  ExecutionResource, normalize_resource_id, execution_resource,
}

pub execution_resource_sound :
    (r : ExecutionResource)
    → execution_resource r ≡ ok r
    → (is_blank (strip r.resource_id) ≡ false)
      × (strip r.resource_id ≡ r.resource_id)
      × (1 ≤ r.capacity)
      × (r.system_headroom ≤ r.capacity)
unfolding execution_resource normalize_resource_id
execution_resource_sound r h = ground arith
