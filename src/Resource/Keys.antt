-- ===== src/Resource/Keys.antt =====
-- Resource identifiers as keys.
use native.Mathlib.Decide.{ℕ_discrete}
use parsip.Protocol.{ResourceId}
use parsip.Map.{Key}

pub ResourceId-discrete : Discrete ResourceId
ResourceId-discrete = hlevel ℕ_discrete

instance abbrev pub resource_key : Key ResourceId
resource_key = record { dec = ResourceId-discrete }
