-- ===== src/Tests/Server/Versions/Laws.antt =====
-- The server with versions keeps what is asked of one that others use too.
use rcs_ocm_deployer.Common.{
  ◌+◌, String, ◌<>◌, ◌≡◌, ◌≤◌, refl, Bool, true, false, not, none, some, List, [], ◌∷◌, arith,
  eq_iff, Bool-cases, inl, inr, ap, sym, ◌∙◌, Option,
}
use text.Mathlib.TextLemmas.{length-append}
use Prim.Native.String.{count}
use rcs_ocm_deployer.Api.Meta.{NamespacedName}
use rcs_ocm_deployer.Api.Workload.{Capp}
use rcs_ocm_deployer.Api.Work.{ManifestWork}
use rcs_ocm_deployer.Runtime.Outcome.{done, is_not_found}
use rcs_ocm_deployer.Runtime.Shared.{IsShared, IsSameVersion}
use rcs_ocm_deployer.Runtime.WorkStore.{accepted, answers_not_found, key_of}
use rcs_ocm_deployer.Sync.Adapters.{contains_finalizer}
use rcs_ocm_deployer.Tests.Server.{
  Objects, is_key, is_key-eq, find_work, drop_work, updated, deleted, reply_of,
}
use rcs_ocm_deployer.Tests.Server.Versions.{Shelf, versioned, is_current, capp_key_of}

abbrev pub has_work : NamespacedName → List ManifestWork → Bool
has_work k works = not (answers_not_found (reply_of (find_work k works)))

abbrev is_finalized : Shelf → Bool
is_finalized w = contains_finalizer w.capp

-- an older version, or the stored one with its finalizers
abbrev Known : Capp → Shelf → Type 0
Known c w =
    (count c.resource_version ≤ count w.capp.resource_version)
    × (c.resource_version ≡ w.capp.resource_version → contains_finalizer c ≡ is_finalized w)

count_bumped : (v : String) → count ("v" <> v) ≡ 1 + count v
count_bumped v = length-append "v" v

-- a version that was there is not the next one
older : (s v : String) → count s ≤ count v → count s ≤ count ("v" <> v)
older s v h = rw (count_bumped v) (omega arith)

not_next : (s v : String) → count s ≤ count v → s ≡ "v" <> v → ⊥
not_next s v h e = let longer = ap count e ∙ count_bumped v in omega arith

-- others may do what keeps the finalizer, creates no ManifestWork, and makes versions grow
abbrev pub Steps : NamespacedName → Shelf → Shelf → Type 0
Steps k w v =
    (is_finalized w ≡ true → is_finalized v ≡ true)
    × (has_work k v.objects.works ≡ true → has_work k w.objects.works ≡ true)
    × ((c : Capp) → Known c w → Known c v)

pub idle : (k : NamespacedName) (w : Shelf) → Steps k w w
idle k w = (λ p. p, λ p. p, λ c p. p)

pub status_Steps :
    (k : NamespacedName) (w : Shelf) (a : Capp) → Steps k w (versioned.update_capp_status a w).1
unfolding contains_finalizer
status_Steps k w a = elim (Bool-cases (is_current a w.capp)) [
  | inl e ↦ rw e (
    λ p. p,
    λ p. p,
    λ c (old, same). (
      older c.resource_version w.capp.resource_version old,
      λ x. absurd (not_next c.resource_version w.capp.resource_version old x),
    ),
  )
  | inr e ↦ rw e (idle k w)
]

status_stored :
    (w : Shelf) (a b : Capp)
    → (versioned.update_capp_status a w).0 ≡ done b
    → b ≡ (versioned.update_capp_status a w).1.capp
status_stored w a b h = elim (Bool-cases (is_current a w.capp)) [
  | inl e ↦ ground arith
  | inr e ↦ absurd (ground arith)
]

pub stored_Known : (c : Capp) (w : Shelf) → c ≡ w.capp → Known c w
stored_Known c w e = rw e (omega arith, λ x. refl)

pub status_Known :
    (w : Shelf) (c a b : Capp)
    → Known c w
    → IsSameVersion c a
    → (versioned.update_capp_status a w).0 ≡ done b
    → Known b (versioned.update_capp_status a w).1
status_Known w c a b p same h =
    stored_Known b (versioned.update_capp_status a w).1 (status_stored w a b h)

pub refused_Steps :
    (k : NamespacedName) (w : Shelf) (a : Capp)
    → accepted (versioned.update_capp a w).0 ≡ false
    → Steps k w (versioned.update_capp a w).1
refused_Steps k w a h = elim (Bool-cases (is_current a w.capp)) [
  | inl e ↦ absurd (ground arith)
  | inr e ↦ rw e (idle k w)
]

pub accepted_current :
    (w : Shelf) (c a : Capp)
    → Known c w
    → IsSameVersion c a
    → accepted (versioned.update_capp a w).0 ≡ true
    → is_finalized w ≡ true
    → contains_finalizer c ≡ true
accepted_current w c a p same h f =
    let same_as_stored : c.resource_version ≡ w.capp.resource_version =
      grind (arith, eq_iff a.resource_version w.capp.resource_version) in
    p.1 same_as_stored ∙ f

pub accepted_finalized :
    (w : Shelf) (a : Capp)
    → accepted (versioned.update_capp a w).0 ≡ true
    → contains_finalizer a ≡ true
    → is_finalized (versioned.update_capp a w).1 ≡ true
unfolding contains_finalizer
accepted_finalized w a h f = elim (Bool-cases (is_current a w.capp)) [
  | inl e ↦ rw e f
  | inr e ↦ absurd (ground arith)
]

has_work-drop_work :
    (j k : NamespacedName) (works : List ManifestWork)
    → has_work k (drop_work j works) ≡ true
    → has_work k works ≡ true
unfolding is_not_found
has_work-drop_work j k [] h = h
has_work-drop_work j k (mw ∷ works) h = ground (arith, has_work-drop_work j k works)

pub created_finalized :
    (w : Shelf) (mw : ManifestWork)
    → is_finalized w ≡ true
    → is_finalized (versioned.create_work mw w).1 ≡ true
created_finalized w mw h = h

found_at :
    (j k : NamespacedName) (works : List ManifestWork) (old : ManifestWork)
    → j ≡ k
    → find_work j works ≡ some old
    → has_work k works ≡ true
found_at j k works old same e = rw (sym same) (rw e refl)

updated_has :
    (k : NamespacedName) (o : Option ManifestWork) (w : Objects) (mw : ManifestWork)
    → find_work (key_of mw) w.works ≡ o
    → has_work k (updated o mw w).1.works ≡ true
    → has_work k w.works ≡ true
unfolding is_not_found
updated_has k none w mw e h = h
updated_has k (some old) w mw e h = elim (Bool-cases (is_key (key_of mw) k)) [
  | inl same ↦ found_at (key_of mw) k w.works old (is_key-eq (key_of mw) k same) e
  | inr other ↦ has_work-drop_work (key_of mw) k w.works (rw other at h)
]

deleted_has :
    (k : NamespacedName) (o : Option ManifestWork) (w : Objects) (mw : ManifestWork)
    → has_work k (deleted o mw w).1.works ≡ true
    → has_work k w.works ≡ true
deleted_has k none w mw h = h
deleted_has k (some old) w mw h = has_work-drop_work (key_of mw) k w.works h

pub updated_Steps :
    (k : NamespacedName) (w : Shelf) (mw : ManifestWork) → Steps k w (versioned.update_work mw w).1
updated_Steps k w mw = (λ p. p, updated_has k _ w.objects mw refl, λ c p. p)

pub deleted_Steps :
    (k : NamespacedName) (w : Shelf) (mw : ManifestWork) → Steps k w (versioned.delete_work mw w).1
deleted_Steps k w mw = (λ p. p, deleted_has k _ w.objects mw, λ c p. p)

pub read_stored :
    (k : NamespacedName) (w : Shelf) (c : Capp) → (versioned.get_capp k w).0 ≡ done c → c ≡ w.capp
read_stored k w c h = elim (Bool-cases (is_key k (capp_key_of w.capp))) [
  | inl e ↦ ground arith
  | inr e ↦ absurd (ground arith)
]

sent_works : (w : Shelf) (a : Capp) → (versioned.update_capp a w).1.objects ≡ w.objects
sent_works w a = elim (Bool-cases (is_current a w.capp)) [ inl e ↦ rw e refl | inr e ↦ rw e refl ]

pub sent_present :
    (k : NamespacedName) (w : Shelf) (a : Capp)
    → has_work k (versioned.update_capp a w).1.objects.works ≡ true
    → has_work k w.objects.works ≡ true
sent_present k w a h = rw (sent_works w a) at h

unfoldable pub versioned-IsShared :
    (key work : NamespacedName) → IsShared versioned key work contains_finalizer
versioned-IsShared key work = record {
  finalized = is_finalized;
  present = λ w. has_work work w.objects.works;
  Seen = Known;
  Moves = Steps work;
  moves_finalized = λ m. m.0;
  moves_present = λ m. m.1;
  get_config = λ k w. idle work w;
  get_capp = λ k w. idle work w;
  get_placement = λ k w. idle work w;
  get_work = λ k w. idle work w;
  get_config_map = λ k w. idle work w;
  get_secret = λ k w. idle work w;
  list_decisions = λ o w. idle work w;
  list_role_bindings = λ ns w. idle work w;
  seen = λ w c h. stored_Known c w (read_stored key w c h);
  seen_finalized = λ w c h has. sym (ap contains_finalizer (read_stored key w c h)) ∙ has;
  missing = λ w h. ap not h;
  moves_seen = λ c m. m.2 c;
  update_refused = refused_Steps work;
  update_current = accepted_current;
  update_finalizes = λ w c a seen same yes_update has. accepted_finalized w a yes_update has;
  update_present = λ w a h. sent_present work w a h;
  status_moves = status_Steps work;
  status_seen = status_Known;
  create_finalized = created_finalized;
  update_work_moves = updated_Steps work;
  delete_work_moves = deleted_Steps work;
}
