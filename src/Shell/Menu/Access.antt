-- ===== src/Shell/Menu/Access.antt =====
-- Which views the menu lists.
use ready_jlmirror.Common.{String, Bool, true, false, List, [], ◌∷◌, ◌||◌, ◌≡◌, refl, map, filter}
use ready_jlmirror.Session.{includes}
use ready_jlmirror.Shell.Menu.{groups_for, nav_groups, items_of}

-- What a view asks of the session.
pub data Need : Type 0 where
  nothing operate admin audit msp_clients platform : Need

abbrev met : (operate admin audit platform msp : Bool) → Need → Bool
met o a u p m Need.nothing = true
met o a u p m Need.operate = o
met o a u p m Need.admin = a
met o a u p m Need.audit = u
met o a u p m Need.msp_clients = m
met o a u p m Need.platform = p || a

-- Whether a session with these permissions meets a need; a tenant's administrator stands in for a
-- platform's.
abbrev pub is_met : List String → Bool → Need → Bool
is_met perms msp =
    met (includes "monitoring:operate" perms) (includes "tenant:admin" perms)
      (includes "audit:read" perms) (includes "platform_admin" perms) msp

-- The views of the menu, each with its need.
unfoldable pub needs : List (String × Need)
needs =
    ("noc", Need.nothing)
    ∷ ("alerts", Need.nothing)
    ∷ ("incidents", Need.nothing)
    ∷ ("policies", Need.nothing)
    ∷ ("changes", Need.operate)
    ∷ ("sla", Need.operate)
    ∷ ("automation", Need.operate)
    ∷ ("reports", Need.operate)
    ∷ ("aiops", Need.nothing)
    ∷ ("finops", Need.nothing)
    ∷ ("monitoring", Need.nothing)
    ∷ ("inventory", Need.nothing)
    ∷ ("alertmanager", Need.operate)
    ∷ ("infra", Need.operate)
    ∷ ("maintenance", Need.operate)
    ∷ ("platform", Need.nothing)
    ∷ ("channels", Need.operate)
    ∷ ("escalation", Need.operate)
    ∷ ("users", Need.admin)
    ∷ ("team", Need.admin)
    ∷ ("apikeys", Need.admin)
    ∷ ("audit", Need.audit)
    ∷ ("msp", Need.msp_clients)
    ∷ ("platform-admin", Need.platform)
    ∷ []

items_for :
    (o a u p m : Bool)
    → map (λ i. i.id) (items_of (groups_for o a u p m))
      ≡ map (λ e. e.0) (filter (λ e. met o a u p m e.1) needs)
unfolding groups_for needs
items_for true true true true true = refl
items_for true true true true false = refl
items_for true true true false true = refl
items_for true true true false false = refl
items_for true true false true true = refl
items_for true true false true false = refl
items_for true true false false true = refl
items_for true true false false false = refl
items_for true false true true true = refl
items_for true false true true false = refl
items_for true false true false true = refl
items_for true false true false false = refl
items_for true false false true true = refl
items_for true false false true false = refl
items_for true false false false true = refl
items_for true false false false false = refl
items_for false true true true true = refl
items_for false true true true false = refl
items_for false true true false true = refl
items_for false true true false false = refl
items_for false true false true true = refl
items_for false true false true false = refl
items_for false true false false true = refl
items_for false true false false false = refl
items_for false false true true true = refl
items_for false false true true false = refl
items_for false false true false true = refl
items_for false false true false false = refl
items_for false false false true true = refl
items_for false false false true false = refl
items_for false false false false true = refl
items_for false false false false false = refl

-- The menu lists exactly the views whose need the session meets, each once, in the order of the
-- table `needs`.
pub nav_groups-needs :
    (perms : List String) (msp : Bool)
    → map (λ i. i.id) (items_of (nav_groups perms msp))
      ≡ map (λ e. e.0) (filter (λ e. is_met perms msp e.1) needs)
unfolding nav_groups
nav_groups-needs perms msp =
    items_for (includes "monitoring:operate" perms) (includes "tenant:admin" perms)
      (includes "audit:read" perms) (includes "platform_admin" perms) msp
