-- ===== src/Sync/Directors/Auth/Readers.antt =====
-- Who becomes a subject of the RoleBinding for the logs.
use rcs_ocm_deployer.Common.{
  String, ◌≡◌, ◌∙◌, Bool, ◌||◌, List, [], ◌∷◌, ◌++◌, map, append-nil, append_assoc, arith, ◌==◌,
  if◌then◌else◌,
}
use rcs_ocm_deployer.Api.Work.{Subject, RoleBinding}
use rcs_ocm_deployer.Sync.Directors.Auth.{
  user_subject, subjects_loop, generate_subjects_from_users, subject_names, users_loop,
}

-- A RoleBinding to `admin` or `logs-reader`.
abbrev pub grants_logs : RoleBinding → Bool
grants_logs rb = rb.role_ref.name == "admin" || rb.role_ref.name == "logs-reader"

-- The subjects of those RoleBindings, by name and in order.
abbrev pub log_readers : List RoleBinding → List String
log_readers [] = []
log_readers (rb ∷ items) =
    (if grants_logs rb then map (λ (s : Subject). s.name) rb.subjects else []) ++ log_readers items

subject_names-eq :
    (subjects : List Subject) (users : List String)
    → subject_names subjects users ≡ users ++ map (λ (s : Subject). s.name) subjects
unfolding subject_names
subject_names-eq [] users = rw append-nil
subject_names-eq (s ∷ subjects) users = subject_names-eq subjects _ ∙ append_assoc users _ _

users_loop-eq :
    (items : List RoleBinding) (users : List String)
    → users_loop items users ≡ users ++ log_readers items
unfolding users_loop
users_loop-eq [] users = rw append-nil
users_loop-eq (rb ∷ items) users = ground (
  arith,
  users_loop-eq items users,
  users_loop-eq items (subject_names rb.subjects users),
  subject_names-eq rb.subjects users,
  append_assoc users (map (λ (s : Subject). s.name) rb.subjects) (log_readers items),
)

subjects_loop-eq :
    (users : List String) (subjects : List Subject)
    → subjects_loop users subjects ≡ subjects ++ map user_subject users
unfolding subjects_loop
subjects_loop-eq [] subjects = rw append-nil
subjects_loop-eq (u ∷ users) subjects = subjects_loop-eq users _ ∙ append_assoc subjects _ _

-- The users are the subjects of the RoleBindings to `admin` and `logs-reader`, in the order of
-- the list, and each of them becomes a subject of kind User with the same name.
pub subjects-eq-log_readers :
    (items : List RoleBinding)
    → generate_subjects_from_users (users_loop items []) ≡ map user_subject (log_readers items)
unfolding generate_subjects_from_users
subjects-eq-log_readers items = rw (users_loop-eq items [], subjects_loop-eq)
