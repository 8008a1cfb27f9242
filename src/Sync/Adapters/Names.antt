-- ===== src/Sync/Adapters/Names.antt =====
-- The names of ManifestWorks.
use rcs_ocm_deployer.Common.{String, ◌<>◌, ◌≡◌, ◌∙◌, sym, ap}
use text.Mathlib.TextLemmas.{append_assoc, append_cancel_left}
use rcs_ocm_deployer.Api.Workload.{Capp}
use rcs_ocm_deployer.Sync.Adapters.{generate_mw_name, manifest_work_prefix}

-- In one namespace, Capps with different names have ManifestWorks with different names.
pub generate_mw_name_inj :
    (c d : Capp)
    → c.namespace ≡ d.namespace
    → generate_mw_name c ≡ generate_mw_name d
    → c.name ≡ d.name
unfolding generate_mw_name
generate_mw_name_inj c d same e =
    let rest : c.namespace <> ("-" <> c.name) ≡ d.namespace <> ("-" <> d.name) =
      append_cancel_left manifest_work_prefix _ _ e in
    let rest' : c.namespace <> ("-" <> c.name) ≡ c.namespace <> ("-" <> d.name) =
      rest ∙ ap (λ (ns : String). ns <> ("-" <> d.name)) (sym same) in
    append_cancel_left "-" _ _ (append_cancel_left c.namespace _ _ rest')

-- A Capp `n` in the namespace `a-b` and a Capp `b-n` in the namespace `a` have the same
-- ManifestWork name.
pub generate_mw_name_collides :
    (a b n : String) (c d : Capp)
    → c.namespace ≡ a <> ("-" <> b)
    → c.name ≡ n
    → d.namespace ≡ a
    → d.name ≡ b <> ("-" <> n)
    → generate_mw_name c ≡ generate_mw_name d
unfolding generate_mw_name
generate_mw_name_collides a b n c d cns cn dns dn =
    ap (λ (s : String). manifest_work_prefix <> s)
      (rw (cns, cn, dns, dn)
        (append_assoc a ("-" <> b) ("-" <> n)
          ∙ ap (λ (s : String). a <> s) (append_assoc "-" b ("-" <> n))))
