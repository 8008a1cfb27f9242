-- ===== src/Tests/Server.antt =====
-- An API server that keeps its objects in lists, as a client; nobody else writes to it.
pub mod Versions
pub mod Neighbours
use rcs_ocm_deployer.Common.{
  String, ◌≡◌, refl, Bool, true, ◌&&◌, Option, none, some, List, [], ◌∷◌, arith, eq_iff, ◌==◌,
  if◌then◌else◌,
}
use rcs_ocm_deployer.Api.Meta.{NamespacedName}
use rcs_ocm_deployer.Api.Workload.{Capp, RcsConfig}
use rcs_ocm_deployer.Api.Work.{ManifestWork, ConfigMap, Secret, RoleBinding, PlacementDecisionList}
use rcs_ocm_deployer.Runtime.Outcome.{
  status, not_found, other_reason, is_not_found, Reply, done, failed,
}
use rcs_ocm_deployer.Runtime.Client.{Client}
use rcs_ocm_deployer.Runtime.Quiet.{IsQuiet}
use rcs_ocm_deployer.Runtime.WorkStore.{IsWorkStore, accepted, answers_not_found, key_of}

pub record Objects : Type 0 where
  pub config : Reply RcsConfig
  pub capps : List Capp
  pub placements : List String
  pub decisions : Reply PlacementDecisionList
  pub works : List ManifestWork
  pub config_maps : List ConfigMap
  pub secrets : List Secret
  pub role_bindings : List RoleBinding
  pub clusters : List String

abbrev missing : {A : Type 0} → Reply A
missing = failed (status not_found "not found")

abbrev pub is_key : NamespacedName → NamespacedName → Bool
is_key j k = j.name == k.name && j.namespace == k.namespace

pub is_key-eq : (j k : NamespacedName) → is_key j k ≡ true → j ≡ k
is_key-eq j k h = ground (arith, eq_iff j.name k.name, eq_iff j.namespace k.namespace)

pub is_key_self : (k : NamespacedName) → is_key k k ≡ true
is_key_self k = ground (arith, eq_iff k.name k.name, eq_iff k.namespace k.namespace)

abbrev find_work : NamespacedName → List ManifestWork → Option ManifestWork
find_work k [] = none
find_work k (mw ∷ works) = if is_key (key_of mw) k then some mw else find_work k works

abbrev drop_work : NamespacedName → List ManifestWork → List ManifestWork
drop_work k [] = []
drop_work k (mw ∷ works) =
    let rest = drop_work k works in if is_key (key_of mw) k then rest else mw ∷ rest

abbrev find_capp : NamespacedName → List Capp → Reply Capp
find_capp k [] = missing
find_capp k (c ∷ capps) = if c.name == k.name then done c else find_capp k capps

abbrev find_config_map : NamespacedName → List ConfigMap → Reply ConfigMap
find_config_map k [] = missing
find_config_map k (m ∷ ms) = if m.metadata.name == k.name then done m else find_config_map k ms

abbrev find_secret : NamespacedName → List Secret → Reply Secret
find_secret k [] = missing
find_secret k (s ∷ ss) = if s.metadata.name == k.name then done s else find_secret k ss

abbrev find_name : String → List String → Reply (Unit {0})
find_name n [] = missing
find_name n (x ∷ xs) = if x == n then done tt else find_name n xs

abbrev reply_of : Option ManifestWork → Reply ManifestWork
reply_of none = missing
reply_of (some mw) = done mw

abbrev created : Option ManifestWork → ManifestWork → Objects → Reply (Unit {0}) × Objects
created none mw w = (done tt, record w { works = mw ∷ w.works })
created (some old) mw w = (failed (status other_reason "already exists"), w)

abbrev updated : Option ManifestWork → ManifestWork → Objects → Reply (Unit {0}) × Objects
updated none mw w = (missing, w)
updated (some old) mw w = (done tt, record w { works = mw ∷ drop_work (key_of mw) w.works })

abbrev deleted : Option ManifestWork → ManifestWork → Objects → Reply (Unit {0}) × Objects
deleted none mw w = (missing, w)
deleted (some old) mw w = (done tt, record w { works = drop_work (key_of mw) w.works })

abbrev pub server : Client
server = record {
  Cluster = Objects;
  get_config = λ k w. (w.config, w);
  get_capp = λ k w. (find_capp k w.capps, w);
  get_placement = λ k w. (find_name k.name w.placements, w);
  get_work = λ k w. (reply_of (find_work k w.works), w);
  get_config_map = λ k w. (find_config_map k w.config_maps, w);
  get_secret = λ k w. (find_secret k w.secrets, w);
  list_decisions = λ o w. (w.decisions, w);
  list_role_bindings = λ ns w. (done w.role_bindings, w);
  list_managed_clusters = λ w. (done w.clusters, w);
  update_capp = λ c w. (done c, record w { capps = c ∷ w.capps });
  update_capp_status = λ c w. (done c, record w { capps = c ∷ w.capps });
  create_work = λ mw w. created (find_work (key_of mw) w.works) mw w;
  update_work = λ mw w. updated (find_work (key_of mw) w.works) mw w;
  delete_work = λ mw w. deleted (find_work (key_of mw) w.works) mw w;
}

pub server-IsQuiet : IsQuiet server
server-IsQuiet = record {
  config = λ k w. refl;
  capp = λ k w. refl;
  placement = λ k w. refl;
  work = λ k w. refl;
  config_map = λ k w. refl;
  secret = λ k w. refl;
  decisions = λ o w. refl;
  role_bindings = λ ns w. refl;
  managed_clusters = λ w. refl;
}

pub find_work-key :
    (k : NamespacedName) (works : List ManifestWork) (mw : ManifestWork)
    → find_work k works ≡ some mw
    → key_of mw ≡ k
find_work-key k [] mw e = absurd (ground arith)
find_work-key k (x ∷ works) mw e = grind (arith, is_key-eq (key_of x) k, find_work-key k works mw)

find_work-drop_work :
    (k : NamespacedName) (works : List ManifestWork) → find_work k (drop_work k works) ≡ none
find_work-drop_work k [] = refl
find_work-drop_work k (x ∷ works) = ground (arith, find_work-drop_work k works)

pub reply_of-found :
    (o : Option ManifestWork) (mw : ManifestWork) → reply_of o ≡ done mw → o ≡ some mw
reply_of-found none mw e = absurd (ground arith)
reply_of-found (some x) mw e = ground arith

pub created-found :
    (o : Option ManifestWork) (mw : ManifestWork) (w : Objects)
    → accepted (created o mw w).0 ≡ true
    → find_work (key_of mw) (created o mw w).1.works ≡ some mw
created-found none mw w h = rw (is_key_self (key_of mw)) refl
created-found (some old) mw w h = absurd (ground arith)

pub updated-found :
    (o : Option ManifestWork) (mw : ManifestWork) (w : Objects)
    → accepted (updated o mw w).0 ≡ true
    → find_work (key_of mw) (updated o mw w).1.works ≡ some mw
updated-found none mw w h = absurd (ground arith)
updated-found (some old) mw w h = rw (is_key_self (key_of mw)) refl

pub deleted-none :
    (o : Option ManifestWork) (mw : ManifestWork) (w : Objects)
    → accepted (deleted o mw w).0 ≡ true
    → find_work (key_of mw) (deleted o mw w).1.works ≡ none
deleted-none none mw w h = absurd (ground arith)
deleted-none (some old) mw w h = find_work-drop_work (key_of mw) w.works

pub reply_of-none : (o : Option ManifestWork) → o ≡ none → answers_not_found (reply_of o) ≡ true
unfolding is_not_found
reply_of-none none e = refl
reply_of-none (some mw) e = absurd (ground arith)

abbrev pub server-IsWorkStore : IsWorkStore server
server-IsWorkStore = record {
  stored = λ w k. find_work k w.works;
  stored_key = λ w k mw e. find_work-key k w.works mw e;
  get_stored = λ w k mw e. reply_of-found _ mw e;
  get_found = λ w k mw e. rw e;
  get_missing = λ w k e. reply_of-none _ e;
  create_stored = λ w mw h. (mw, created-found _ mw w h, refl);
  update_stored = λ w mw h. (mw, updated-found _ mw w h, refl);
  delete_stored = λ w mw free h. deleted-none _ mw w h;
}
