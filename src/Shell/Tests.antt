-- ===== src/Shell/Tests.antt =====
-- The shell on concrete sessions.
use ready_jlmirror.Common.{true, false, [], ◌∷◌, none, some, ◌≡◌, refl, All, map, filter, lookup}
use ready_jlmirror.Ui.{Query, offers}
use ready_jlmirror.Session.{Session, ready}
use ready_jlmirror.Shell.Routes.{
  view_to_path, current_view_from_path, restore, go_to, path_after, stored_by,
}
use ready_jlmirror.Shell.Routes.Roundtrip.{restore-go_to}
use ready_jlmirror.Shell.Menu.{nav_groups, items_of}
use ready_jlmirror.Shell.Menu.Access.{needs, is_met, nav_groups-needs}
use ready_jlmirror.Shell.Badges.{Counts}
use ready_jlmirror.Shell.Frame.{Shell}
use ready_jlmirror.Shell.Frame.View.{Inputs, perms, frame_view}
use ready_jlmirror.Shell.Frame.View.Controls.{Allowed, frame_view-Allowed}

abbrev viewer : Session
viewer = record {
  state = ready;
  principal_id = some "u1";
  tenant_id = some "t1";
  display_name = some "Ana Lima";
  email = none;
  permissions = some ("audit:read" ∷ []);
  memberships = none;
  environment = none;
}

abbrev no_counts : Counts
no_counts = record {
  alerts = some 3;
  incidents = none;
  changes = none;
  sla = none;
  monitoring = none;
  maintenance = none;
  channels = none;
  critical = some 120;
}

abbrev inputs : Inputs
inputs = record {
  session = viewer;
  path = "/audit";
  has_msp_clients = true;
  counts = no_counts;
  branding = none;
  initials = "AL";
}

abbrev shell : Shell
shell = record { collapsed = false; collapsed_groups = "Operações" ∷ []; session_expired = false }

abbrev answered : Query Session
answered = record {
  result = some viewer;
  is_loading = false;
  is_error = false;
  is_fetching = false;
}

api_keys_path : lookup "apikeys" view_to_path ≡ some "/api-keys"
unfolding view_to_path lookup
api_keys_path = refl

restore-go_to_example :
    current_view_from_path
      (path_after (restore viewer "/" (stored_by (go_to viewer.tenant_id "apikeys") [])) "/")
    ≡ "apikeys"
restore-go_to_example = restore-go_to viewer "apikeys" "/api-keys" [] refl api_keys_path

nav_groups-needs_example :
    map (λ i. i.id) (items_of (nav_groups ("audit:read" ∷ []) true))
    ≡ map (λ e. e.0) (filter (λ e. is_met ("audit:read" ∷ []) true e.1) needs)
nav_groups-needs_example = nav_groups-needs ("audit:read" ∷ []) true

frame_view-Allowed_example :
    All (Allowed (perms inputs) inputs.has_msp_clients) (offers (frame_view inputs shell))
frame_view-Allowed_example = frame_view-Allowed inputs shell
