-- ===== src/Reconcile/Canary.antt =====
-- How many pods of a rack a canary upgrade reaches.
use cass_operator.Prelude.{nat_eq}
use cass_operator.Datacenter.{Datacenter}
