-- ===== src/Api.antt =====
-- The objects that the operator reads and writes: api/v1alpha1/rcsconfig_types.go, and of the
-- Kubernetes, Open Cluster Management and container-app-operator types the fields that the code
-- names. A nil map or pointer is `none`.
pub mod Meta
pub mod Workload
pub mod Work
pub mod DeepCopy
pub mod Scheme
