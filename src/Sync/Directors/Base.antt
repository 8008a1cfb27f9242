-- ===== src/Sync/Directors/Base.antt =====
-- internal/sync/directors/baseDirector.go
use rcs_ocm_deployer.Common.{List}
use rcs_ocm_deployer.Api.Workload.{Capp}
use rcs_ocm_deployer.Api.Work.{Manifest}
use rcs_ocm_deployer.Runtime.Client.{Client}
use rcs_ocm_deployer.Runtime.Action.{Action}

-- `Director`: the method `AssembleManifests`
abbrev pub Director : Client → Type 0
Director C = Capp → Action C.Cluster (List Manifest)
