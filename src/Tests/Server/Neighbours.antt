-- ===== src/Tests/Server/Neighbours.antt =====
-- The server with versions beside another Capp, of which every update is accepted.
use rcs_ocm_deployer.Common.{
  ◌≡◌, ◌≢◌, refl, ◌∙◌, sym, ap, true, Bool-cases, inl, inr, Option, none, some, arith, eq_iff,
  if◌then◌else◌,
}
use rcs_ocm_deployer.Api.Meta.{NamespacedName}
use rcs_ocm_deployer.Api.Workload.{Capp}
use rcs_ocm_deployer.Api.Work.{ManifestWork}
use rcs_ocm_deployer.Runtime.Apart.{IsApart}
use rcs_ocm_deployer.Runtime.Client.{Client}
use rcs_ocm_deployer.Runtime.Closed.{capp_key_of}
use rcs_ocm_deployer.Runtime.Outcome.{Reply, done}
use rcs_ocm_deployer.Runtime.Shared.{IsShared, IsSameVersion}
use rcs_ocm_deployer.Runtime.WorkStore.{key_of}
use rcs_ocm_deployer.Sync.Adapters.{contains_finalizer}
use rcs_ocm_deployer.Tests.Server.{
  Objects, missing, is_key, is_key-eq, is_key_self, find_work, created,
}
use rcs_ocm_deployer.Tests.Server.Versions.{Shelf, versioned, is_current, next_version}
use rcs_ocm_deployer.Tests.Server.Versions.Laws.{has_work, idle, versioned-IsShared}

pub record Street : Type 0 where
  pub shelf : Shelf
  pub neighbour : Capp

abbrev on_street : {A : Type 0} → (Shelf → Reply A × Shelf) → Street → Reply A × Street
on_street q w = let (r, s) = q w.shelf in (r, record w { shelf = s })

-- the Capp on the shelf
abbrev pub own : NamespacedName
own = record { name = "web"; namespace = "shop" }

abbrev moved : Capp → Street → Reply Capp × Street
moved a w = (done a, record w { neighbour = a })

abbrev pub street : Client
street = record {
  Cluster = Street;
  get_config = λ k. on_street (versioned.get_config k);
  get_capp = λ k w.
      if is_key k own
      then on_street (versioned.get_capp k) w
      else (if is_key k (capp_key_of w.neighbour) then done w.neighbour else missing, w);
  get_placement = λ k. on_street (versioned.get_placement k);
  get_work = λ k. on_street (versioned.get_work k);
  get_config_map = λ k. on_street (versioned.get_config_map k);
  get_secret = λ k. on_street (versioned.get_secret k);
  list_decisions = λ o. on_street (versioned.list_decisions o);
  list_role_bindings = λ ns. on_street (versioned.list_role_bindings ns);
  list_managed_clusters = on_street versioned.list_managed_clusters;
  update_capp = λ a w.
      if is_key (capp_key_of a) own then on_street (versioned.update_capp a) w else moved a w;
  update_capp_status = λ a w.
      if is_key (capp_key_of a) own
      then on_street (versioned.update_capp_status a) w
      else moved a w;
  create_work = λ mw. on_street (versioned.create_work mw);
  update_work = λ mw. on_street (versioned.update_work mw);
  delete_work = λ mw. on_street (versioned.delete_work mw);
}

-- what is read under a key has it
found_key :
    (k : NamespacedName) (c d : Capp)
    → (if is_key k (capp_key_of d) then done d else missing) ≡ done c
    → capp_key_of c ≡ k
found_key k c d h = elim (Bool-cases (is_key k (capp_key_of d))) [
  | inl e ↦
      let same : d ≡ c = ground arith in sym (is_key-eq k (capp_key_of d) e ∙ ap capp_key_of same)
  | inr e ↦ absurd (ground arith)
]

pub read_key :
    (k : NamespacedName) (w : Street) (c : Capp)
    → (street.get_capp k w).0 ≡ done c
    → capp_key_of c ≡ k
read_key k w c h = elim (Bool-cases (is_key k own)) [
  | inl e ↦ found_key k c w.shelf.capp (rw e at h)
  | inr e ↦ found_key k c w.neighbour (rw e at h)
]

own_key : (c : Capp) → capp_key_of c ≡ own → is_key (capp_key_of c) own ≡ true
own_key c e = ap (λ k. is_key k own) e ∙ is_key_self own

pub same_key :
    (c a : Capp) → IsSameVersion c a → capp_key_of c ≡ own → is_key (capp_key_of a) own ≡ true
same_key c a (name, ns, version) e =
    let same : capp_key_of a ≡ capp_key_of c = rw (name, ns) refl in own_key a (same ∙ e)

shelf_key :
    (w : Shelf) (a b : Capp)
    → (versioned.update_capp_status a w).0 ≡ done b
    → capp_key_of b ≡ capp_key_of a
shelf_key w a b h = elim (Bool-cases (is_current a w.capp)) [
  | inl e ↦
      let key : is_key (capp_key_of a) (capp_key_of w.capp) ≡ true = ground arith in
      let answer : Capp = next_version (record w.capp { status_site = a.status_site }) in
      let h' : done answer ≡ done b = rw e at h in
      let same : answer ≡ b = cc in
      let stored : capp_key_of w.capp ≡ capp_key_of b = ap capp_key_of same in
      sym (is_key-eq (capp_key_of a) (capp_key_of w.capp) key ∙ stored)
  | inr e ↦ absurd (ground arith)
]

-- an answer to an update of the status has the key of what was sent
pub answer_key :
    (w : Street) (a b : Capp)
    → (street.update_capp_status a w).0 ≡ done b
    → capp_key_of b ≡ capp_key_of a
answer_key w a b h = elim (Bool-cases (is_key (capp_key_of a) own)) [
  | inl e ↦ shelf_key w.shelf a b (rw e at h)
  | inr e ↦
      let h' : done a ≡ done b = rw e at h in let same : a ≡ b = cc in ap capp_key_of (sym same)
]

module _ (work : NamespacedName) (G : IsShared versioned own work contains_finalizer) where
  abbrev Moves : Street → Street → Type 0
  Moves w v = G.Moves w.shelf v.shelf

  abbrev Seen : Capp → Street → Type 0
  Seen c w = G.Seen c w.shelf × (capp_key_of c ≡ own)

  unfoldable pub street-IsShared :
      ((w : Shelf) → G.Moves w w) → IsShared street own work contains_finalizer
  street-IsShared none_moves = record {
    finalized = λ w. G.finalized w.shelf;
    present = λ w. G.present w.shelf;
    Seen = Seen;
    Moves = Moves;
    moves_finalized = λ m. G.moves_finalized m;
    moves_present = λ m. G.moves_present m;
    get_config = λ k w. G.get_config k w.shelf;
    get_capp = λ k w. elim (Bool-cases (is_key k own)) [
      | inl e ↦ rw e (G.get_capp k w.shelf)
      | inr e ↦ rw e (none_moves w.shelf)
    ];
    get_placement = λ k w. G.get_placement k w.shelf;
    get_work = λ k w. G.get_work k w.shelf;
    get_config_map = λ k w. G.get_config_map k w.shelf;
    get_secret = λ k w. G.get_secret k w.shelf;
    list_decisions = λ o w. G.list_decisions o w.shelf;
    list_role_bindings = λ ns w. G.list_role_bindings ns w.shelf;
    seen = λ w c h. (G.seen w.shelf c h, read_key own w c h);
    seen_finalized = λ w c h has. G.seen_finalized w.shelf c h has;
    missing = λ w h. G.missing w.shelf h;
    moves_seen = λ c m (seen, key). (G.moves_seen c m seen, key);
    update_refused = λ w a h. elim (Bool-cases (is_key (capp_key_of a) own)) [
      | inl e ↦ rw e (G.update_refused w.shelf a (rw e at h))
      | inr e ↦ rw e (none_moves w.shelf)
    ];
    update_current = λ w c a (seen, key) same yes_update p.
        G.update_current w.shelf c a seen same (rw (same_key c a same key) at yes_update) p;
    update_finalizes = λ w c a (seen, key) same yes_update has.
        rw (same_key c a same key)
          (G.update_finalizes w.shelf c a seen same (rw (same_key c a same key) at yes_update) has);
    update_present = λ w a h. elim (Bool-cases (is_key (capp_key_of a) own)) [
      | inl e ↦ G.update_present w.shelf a (rw e at h)
      | inr e ↦ rw e at h
    ];
    status_moves = λ w a. elim (Bool-cases (is_key (capp_key_of a) own)) [
      | inl e ↦ rw e (G.status_moves w.shelf a)
      | inr e ↦ rw e (none_moves w.shelf)
    ];
    status_seen = λ w c a b (seen, key) same h.
        let e = same_key c a same key in
        (
          rw e (G.status_seen w.shelf c a b seen same (rw e at h)),
          answer_key w a b h ∙ is_key-eq (capp_key_of a) own e,
        );
    create_finalized = λ w mw. G.create_finalized w.shelf mw;
    update_work_moves = λ w mw. G.update_work_moves w.shelf mw;
    delete_work_moves = λ w mw. G.delete_work_moves w.shelf mw;
  }

created_has :
    (k : NamespacedName) (o : Option ManifestWork) (w : Objects) (mw : ManifestWork)
    → mw.metadata.name ≢ k.name
    → has_work k (created o mw w).1.works ≡ true
    → has_work k w.works ≡ true
created_has k none w mw differ h = ground (arith, eq_iff mw.metadata.name k.name)
created_has k (some old) w mw differ h = h

-- the shelf of Versions, with its laws
pub idle_Moves : (work : NamespacedName) (w : Shelf) → (versioned-IsShared own work).Moves w w
unfolding versioned-IsShared
idle_Moves work w = idle work w

abbrev pub street_shared : (work : NamespacedName) → IsShared street own work contains_finalizer
street_shared work = street-IsShared work (versioned-IsShared own work) (idle_Moves work)

pub street-IsApart :
    (work : NamespacedName) → IsApart street own work contains_finalizer (street_shared work)
unfolding street-IsShared versioned-IsShared
street-IsApart work = record {
  moves_none = λ w. idle work w.shelf;
  moves_twice = λ m m'. (λ p. m'.0 (m.0 p), λ p. m.1 (m'.1 p), λ c p. m'.2 c (m.2 c p));
  read_key = read_key;
  answer_key = answer_key;
  update_other = λ w a differ. elim (Bool-cases (is_key (capp_key_of a) own)) [
    | inl e ↦ absurd (differ (is_key-eq (capp_key_of a) own e))
    | inr e ↦ rw e (idle work w.shelf)
  ];
  create_other = λ w mw differ. (
    λ p. p,
    created_has work (find_work (key_of mw) w.shelf.objects.works) w.shelf.objects mw differ,
    λ c p. p,
  );
}
